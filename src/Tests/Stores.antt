-- ===== src/Tests/Stores.antt =====
-- The store on concrete keys.
use lite_store.Base.{◌≡◌, refl, arith, true, false, none, some, pos, negsuc}
use lite_store.Base.Text.{Text, text, text_key, Text-discrete}
use lite_store.Base.Dict.{lookup, add, insert, erase}
use lite_store.Clock.{Clock, IsRegular}
use lite_store.Wheel.{ScheduledEntry, bucket_add, bucket_discard, schedule, pop_due}
use lite_store.Wheel.PopDue.{current_tick}
use lite_store.Store.{MemoryStore, init, set, expire, get, delete, processed, process_expirations}
use lite_store.Store.Shed.{over}
use lite_store.Store.Synced.{IsSynced}
use lite_store.Store.Methods.{Writes, expire-Writes, expire_over-Writes}
use lite_store.Store.Reads.{get_live, get_due, get_round, get_stale, now}
use lite_store.Store.Reachable.{
  Reachable, Reachable-IsSynced, created, did_set, did_expire, did_get,
}
use lite_store.Tests.{clock, readings, clock-IsRegular, builtins, late}

abbrev c : Clock
c = clock readings

abbrev regular : IsRegular c
regular = clock-IsRegular readings

abbrev key : Text
key = text "k"

-- SET k v, EXPIRE k 1
abbrev written : MemoryStore
written = set c (init c) key (text "v")

abbrev timed : MemoryStore
timed = (expire c written key (pos 1)).0

-- A GET within the tick of the deadline, before it.
abbrev seen : MemoryStore
seen = (get c timed key).0

abbrev timed-Reachable : Reachable c builtins timed
timed-Reachable = did_expire key (pos 1) (did_set key (text "v") created)

Reachable-IsSynced_example : IsSynced c seen
Reachable-IsSynced_example = Reachable-IsSynced c builtins regular (did_get key timed-Reachable)

abbrev entry : ScheduledEntry
entry = record { key = key; expires_at = 1020; scheduled_tick = pos 10 }

seen_entry : lookup key seen.timing_wheel.entries_by_key ≡ some entry
unfolding set get expire schedule pop_due Text-discrete lookup bucket_add bucket_discard add insert
    erase process_expirations delete
seen_entry = refl

seen_tick : seen.timing_wheel.last_processed_tick ≡ pos 10
unfolding set get expire schedule pop_due Text-discrete lookup bucket_add bucket_discard add insert
    erase process_expirations delete
seen_tick = refl

seen_current : current_tick c seen.timing_wheel (now c seen key) ≡ pos 11
unfolding set get expire schedule pop_due Text-discrete lookup bucket_add bucket_discard add insert
    erase process_expirations delete
seen_current = refl

-- The value is still there 80 ms after the deadline.
get_stale_example : (get c seen key).1 ≡ lookup key seen.items
get_stale_example =
    get_stale c seen key regular Reachable-IsSynced_example entry seen_entry
      (grind (arith, seen_tick)) (grind (arith, seen_current))

live : over (now c timed key) (lookup key timed.expires_at) ≡ false
unfolding set get expire schedule pop_due Text-discrete lookup bucket_add bucket_discard add insert
    erase process_expirations delete
live = refl

get_live_example : (get c timed key).1 ≡ lookup key timed.items
get_live_example = get_live c timed key live

written_value : lookup key (processed c written).items ≡ some (text "v")
unfolding set get expire schedule pop_due Text-discrete lookup bucket_add bucket_discard add insert
    erase process_expirations delete
written_value = refl

expire-Writes_example :
    Writes key (some (text "v")) (some 1020) (processed c written) timed
    × ((expire c written key (pos 1)).1 ≡ true)
unfolding set get expire schedule pop_due Text-discrete lookup bucket_add bucket_discard add insert
    erase process_expirations delete
expire-Writes_example =
    expire-Writes c regular written key
      (Reachable-IsSynced c builtins regular (did_set key (text "v") created)) (text "v")
      written_value (pos 1) (omega arith)

expire_over-Writes_example :
    Writes key none none (processed c (processed c written)) (expire c written key (negsuc 4)).0
    × ((expire c written key (negsuc 4)).1 ≡ true)
expire_over-Writes_example =
    expire_over-Writes c regular written key
      (Reachable-IsSynced c builtins regular (did_set key (text "v") created)) (text "v")
      written_value (negsuc 4) (omega arith)

-- The same requests on a clock with a long time between its readings.
abbrev slow : Clock
slow = clock late

abbrev waiting : MemoryStore
waiting = (expire slow (set slow (init slow) key (text "v")) key (pos 1)).0

waiting-IsSynced : IsSynced slow waiting
waiting-IsSynced =
    Reachable-IsSynced slow builtins (clock-IsRegular late)
      (did_expire key (pos 1) (did_set key (text "v") created))

abbrev waiting_entry : ScheduledEntry
waiting_entry = record { key = key; expires_at = 201000; scheduled_tick = pos 2010 }

waiting_found : lookup key waiting.timing_wheel.entries_by_key ≡ some waiting_entry
unfolding set get expire schedule pop_due Text-discrete lookup bucket_add bucket_discard add insert
    erase process_expirations delete
waiting_found = refl

waiting_last : waiting.timing_wheel.last_processed_tick ≡ pos 1000
unfolding set get expire schedule pop_due Text-discrete lookup bucket_add bucket_discard add insert
    erase process_expirations delete
waiting_last = refl

waiting_tick : current_tick slow waiting.timing_wheel (now slow waiting key) ≡ pos 3000
unfolding set get expire schedule pop_due Text-discrete lookup bucket_add bucket_discard add insert
    erase process_expirations delete
waiting_tick = refl

waiting_time : now slow waiting key ≡ 300000
unfolding set get expire schedule pop_due Text-discrete lookup bucket_add bucket_discard add insert
    erase process_expirations delete
waiting_time = refl

get_due_example : (get slow waiting key).1 ≡ none
get_due_example =
    get_due slow waiting key (clock-IsRegular late) waiting-IsSynced waiting_entry waiting_found
      (grind (arith, waiting_last)) (omega (arith, waiting_time))

get_round_example : (get slow waiting key).1 ≡ none
get_round_example =
    get_round slow waiting key (clock-IsRegular late) waiting-IsSynced waiting_entry waiting_found
      (grind (arith, waiting_last, waiting_tick)) (omega (arith, waiting_time))
