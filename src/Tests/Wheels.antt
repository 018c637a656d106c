-- ===== src/Tests/Wheels.antt =====
-- The timing wheel on concrete timers.
use lite_store.Base.{
  ◌+◌, ◌≤◌, ◌<◌, ◌≤ℤ◌, ◌<ℤ◌, pos_part, neg_part, distance, ◌≡◌, refl, arith, true, none, some, pos,
  ok,
}
use lite_store.Base.Text.{Text, text, text_key, Text-discrete}
use lite_store.Base.Dict.{lookup, add, insert}
use lite_store.Clock.{Clock, IsRegular}
use lite_store.Wheel.{
  bucket_add, bucket_discard, TimingWheel, ScheduledEntry, new, init, schedule, pop_due,
}
use lite_store.Wheel.PopDue.{Pops, pop_due-Pops, started, current_tick}
use lite_store.Wheel.Sweep.{listed}
use lite_store.Wheel.Timed.{expiry}
use lite_store.Wheel.Delivery.{pop_due_sound, pop_due_complete}
use lite_store.Wheel.Schedule.{Schedules, schedule-Schedules}
use lite_store.Wheel.Lifetime.{IsSound, new-IsSound, schedule-IsSound, pop_due-IsSound}
use lite_store.Tests.{clock, tick_times, clock-IsRegular}

abbrev c : Clock
c = clock tick_times

abbrev key : Text
key = text "k"

-- A wheel of four buckets, whose origin is the time 1000.
abbrev begun : TimingWheel
begun = (pop_due c (new 100 4) 1000).0

begun-IsSound : IsSound c 4 begun
begun-IsSound = pop_due-IsSound c 4 (new 100 4) (new-IsSound c 100 4 (omega arith)) 1000

abbrev waiting : TimingWheel
waiting = schedule c begun key 1150

waiting-IsSound : IsSound c 4 waiting
waiting-IsSound = schedule-IsSound c 4 begun begun-IsSound (clock-IsRegular tick_times) key 1150

abbrev entry : ScheduledEntry
entry = record { key = key; expires_at = 1150; scheduled_tick = pos 1 }

waiting_entry : lookup key waiting.entries_by_key ≡ some entry
unfolding schedule pop_due Text-discrete lookup bucket_add bucket_discard add insert
waiting_entry = refl

-- One call within the tick of the deadline, before it.
abbrev passed : TimingWheel
passed = (pop_due c waiting 1110).0

passed-IsSound : IsSound c 4 passed
passed-IsSound = pop_due-IsSound c 4 waiting waiting-IsSound 1110

passed_entry : lookup key passed.entries_by_key ≡ some entry
unfolding schedule pop_due Text-discrete lookup bucket_add bucket_discard add insert
passed_entry = refl

abbrev regular : IsRegular c
regular = clock-IsRegular tick_times

popped_1150 : listed key 1150 (pop_due c waiting 1200).1 ≡ true
unfolding schedule pop_due Text-discrete lookup bucket_add bucket_discard add insert listed
popped_1150 = refl

waiting_tick : waiting.last_processed_tick ≡ pos 0
unfolding schedule pop_due Text-discrete lookup bucket_add bucket_discard add insert
waiting_tick = refl

passed_tick : passed.last_processed_tick ≡ pos 1
unfolding schedule pop_due Text-discrete lookup bucket_add bucket_discard add insert
passed_tick = refl

tick_1300 : current_tick c passed 1300 ≡ pos 3
unfolding schedule pop_due Text-discrete lookup bucket_add bucket_discard add insert
tick_1300 = refl

tick_1500 : current_tick c passed 1500 ≡ pos 5
unfolding schedule pop_due Text-discrete lookup bucket_add bucket_discard add insert
tick_1500 = refl

waiting_last : waiting.last_processed_tick <ℤ pos 1
waiting_last = grind (arith, waiting_tick, passed_tick, tick_1300, tick_1500)

passed_last : pos 1 ≤ℤ passed.last_processed_tick
passed_last = grind (arith, waiting_tick, passed_tick, tick_1300, tick_1500)

passed_soon :
    pos_part (current_tick c passed 1300) + neg_part (pos 1)
    < pos_part (pos 1) + neg_part (current_tick c passed 1300) + 4
passed_soon = grind (arith, waiting_tick, passed_tick, tick_1300, tick_1500)

passed_round : 4 ≤ distance passed.last_processed_tick (current_tick c passed 1500)
passed_round = grind (arith, waiting_tick, passed_tick, tick_1300, tick_1500)

made : init 100 4 ≡ ok (new 100 4)
unfolding init
made = refl

pop_due-Pops_example :
    Pops 4 1200
      (started c waiting 1200)
      (current_tick c waiting 1200)
      (pop_due c waiting 1200).0
      (pop_due c waiting 1200).1
pop_due-Pops_example = pop_due-Pops c waiting 1200 waiting-IsSound.filed

pop_due_sound_example :
    (expiry (lookup key waiting.entries_by_key) ≡ some 1150)
    × (1150 ≤ 1200)
    × (lookup key (pop_due c waiting 1200).0.entries_by_key ≡ none)
pop_due_sound_example =
    pop_due_sound c regular waiting 1200 waiting-IsSound.filed waiting-IsSound.timed key 1150
      popped_1150

pop_due_complete_example :
    (lookup key (pop_due c waiting 1200).0.entries_by_key ≡ none)
    × (listed key 1150 (pop_due c waiting 1200).1 ≡ true)
pop_due_complete_example =
    pop_due_complete c regular waiting 1200 waiting-IsSound.filed waiting-IsSound.timed key entry
      waiting_entry waiting_last (omega arith)

schedule-Schedules_example : Schedules c 4 begun key 950 (schedule c begun key 950)
schedule-Schedules_example =
    schedule-Schedules c regular begun 950 begun-IsSound.filed begun-IsSound.timed key
