-- ===== src/Wheel.antt =====
-- The timing wheel of src/timing_wheel.py.
--
-- The tick buckets are Python sets: a bucket is a list without repetition, and the order in which
-- a set is iterated is that of insertion here. An operation returns the new wheel.
pub mod Filed
pub mod Sweep
pub mod Remains
pub mod Lifetime
pub mod Delivery
pub mod Schedule
pub mod Timed
pub mod PopDue
pub mod Ranges
use lite_store.Base.{
  ℕ, zero, suc, Option, none, some, List, [], ◌∷◌, ◌++◌, ltb, leb, if◌then◌else◌, Result, ok,
  raised, get_or, set, replicate, ℤ, pos, negsuc, next, leb_ℤ, ltb_ℤ, mod_ℤ, distance,
}
use lite_store.Base.Text.{Text, text_key}
use lite_store.Base.Dict.{Dict, lookup, insert, erase, add, discard}
use lite_store.Clock.{Time, Clock}

-- _ScheduledEntry
pub record ScheduledEntry : Type 0 where
  pub key : Text
  pub expires_at : Time
  pub scheduled_tick : ℤ

pub record TimerEntry : Type 0 where
  pub key : Text
  pub expires_at : Time

pub record TimingWheel : Type 0 where
  pub tick_seconds : Time
  pub bucket_count : ℕ
  pub buckets : List (List Text)
  pub entries_by_key : Dict Text ScheduledEntry
  pub last_processed_tick : ℤ
  pub origin_timestamp : Option Time

pub data ValueError : Type 0 where
  tick_seconds_must_be_positive bucket_count_must_be_positive : ValueError

-- The fields that the constructor sets.
abbrev pub new : Time → ℕ → TimingWheel
new tick_seconds bucket_count = record {
  tick_seconds = tick_seconds;
  bucket_count = bucket_count;
  buckets = replicate bucket_count [];
  entries_by_key = [];
  last_processed_tick = negsuc 0;
  origin_timestamp = none;
}

-- TimingWheel(tick_seconds, bucket_count)
unfoldable pub init : Time → ℕ → Result ValueError TimingWheel
init tick_seconds bucket_count =
    if leb tick_seconds 0
    then raised tick_seconds_must_be_positive
    else if leb bucket_count 0
    then raised bucket_count_must_be_positive
    else ok (new tick_seconds bucket_count)

-- The index of `_bucket_for_tick`.
unfoldable pub index_for_tick : TimingWheel → ℤ → ℕ
index_for_tick w tick = mod_ℤ tick w.bucket_count

unfoldable pub bucket_for_tick : TimingWheel → ℤ → List Text
unfolding index_for_tick
bucket_for_tick w tick = get_or w.buckets (index_for_tick w tick) []

-- self._bucket_for_tick(tick).add(key)
unfoldable pub bucket_add : TimingWheel → ℤ → Text → TimingWheel
unfolding bucket_for_tick
bucket_add w tick key = record w {
  buckets = set w.buckets (index_for_tick w tick) (add key (bucket_for_tick w tick));
}

-- self._bucket_for_tick(tick).discard(key)
unfoldable pub bucket_discard : TimingWheel → ℤ → Text → TimingWheel
unfolding bucket_for_tick
bucket_discard w tick key = record w {
  buckets = set w.buckets (index_for_tick w tick) (discard key (bucket_for_tick w tick));
}

unfoldable pub cancel : TimingWheel → Text → TimingWheel
cancel w key = elim (lookup key w.entries_by_key) [
  | none ↦ w
  | some entry ↦
      bucket_discard (record w { entries_by_key = erase key w.entries_by_key }) entry.scheduled_tick
        key
]

-- due_entries.sort(key=lambda entry: entry.expires_at), which is stable
unfoldable pub insert_by_expiry : TimerEntry → List TimerEntry → List TimerEntry
insert_by_expiry e [] = e ∷ []
insert_by_expiry e (f ∷ l) =
    if leb e.expires_at f.expires_at then e ∷ f ∷ l else f ∷ insert_by_expiry e l

unfoldable pub sort_by_expiry : List TimerEntry → List TimerEntry
unfolding insert_by_expiry
sort_by_expiry [] = []
sort_by_expiry (e ∷ l) = insert_by_expiry e (sort_by_expiry l)

-- list(range(first, first + n))
unfoldable pub ticks_from : ℤ → ℕ → List ℤ
ticks_from first zero = []
ticks_from first (suc n) = first ∷ ticks_from (next first) n

-- The variables of the loop of `pop_due`: the wheel, and `due_entries`.
pub record Scan : Type 0 where
  pub wheel : TimingWheel
  pub due : List TimerEntry

-- The body of the inner loop, for one key of the bucket of `tick` and its entry. A kept entry goes
-- back to the bucket of its own tick.
unfoldable pub visit_entry : Time → ℤ → Scan → Text → Option ScheduledEntry → Scan
visit_entry now tick s key none = record s { wheel = bucket_discard s.wheel tick key }
visit_entry now tick s key (some entry) =
    if ltb_ℤ tick entry.scheduled_tick
    then s
    else let w = bucket_discard s.wheel tick key in
      if leb entry.expires_at now
      then record {
        wheel = record w { entries_by_key = erase key w.entries_by_key };
        due = s.due ++ record { key = entry.key; expires_at = entry.expires_at } ∷ [];
      }
      else record s { wheel = bucket_add w entry.scheduled_tick key }

unfoldable pub visit : Time → ℤ → Scan → Text → Scan
unfolding visit_entry
visit now tick s key = visit_entry now tick s key (lookup key s.wheel.entries_by_key)

-- for key in tuple(bucket)
unfoldable pub visit_all : Time → ℤ → List Text → Scan → Scan
unfolding visit
visit_all now tick [] s = s
visit_all now tick (key ∷ keys) s = visit_all now tick keys (visit now tick s key)

-- for tick in range(last_processed_tick + 1, current_tick + 1)
unfoldable pub scan : Time → List ℤ → Scan → Scan
unfolding visit_all
scan now [] s = s
scan now (tick ∷ ticks) s = scan now ticks (visit_all now tick (bucket_for_tick s.wheel tick) s)

-- self._entries_by_key[key] = entry and self._bucket_for_tick(tick).add(key)
unfoldable pub place : TimingWheel → Text → Time → ℤ → TimingWheel
place w key expires_at tick =
    bucket_add
      (record w {
        entries_by_key =
            insert key (record { key = key; expires_at = expires_at; scheduled_tick = tick })
              w.entries_by_key;
      })
      tick key

-- `pop_due` after its first line, which computes the current tick
unfoldable pub pop_ticks : Time → TimingWheel → ℤ → TimingWheel × List TimerEntry
unfolding scan sort_by_expiry ticks_from
pop_ticks now w current =
    let last = w.last_processed_tick in
    if leb_ℤ current last
    then (w, [])
    else let s =
        scan now (ticks_from (next last) (distance last current))
          (record { wheel = w; due = [] }) in
      (record s.wheel { last_processed_tick = current }, sort_by_expiry s.due)

module _ (c : Clock) where
  -- _tick_for_timestamp, which fixes the origin at its first call; for a tick that does not overflow
  unfoldable pub tick_for_timestamp : TimingWheel → Time → TimingWheel × ℤ
  tick_for_timestamp w timestamp = elim w.origin_timestamp [
    | none ↦
        (record w { origin_timestamp = some timestamp }, c.tick w.tick_seconds timestamp timestamp)
    | some origin ↦ (w, c.tick w.tick_seconds origin timestamp)
  ]

  -- the loop of `_rebase_origin` over the old entries
  unfoldable pub place_all : TimingWheel → Dict Text ScheduledEntry → TimingWheel
  unfolding tick_for_timestamp place
  place_all w [] = w
  place_all w ((_, entry) ∷ entries) =
      let (w', tick) = tick_for_timestamp w entry.expires_at in
      place_all (place w' entry.key entry.expires_at tick) entries

  unfoldable pub rebase_last_tick : TimingWheel → Time → ℤ → ℤ
  rebase_last_tick w new_origin (negsuc n) = negsuc 0
  rebase_last_tick w new_origin (pos n) =
      c.tick w.tick_seconds new_origin (c.tick_start w.tick_seconds new_origin n)

  unfoldable pub rebase_origin : TimingWheel → Time → TimingWheel
  unfolding place_all rebase_last_tick
  rebase_origin w new_origin =
      place_all
        (record w {
          origin_timestamp = some new_origin;
          buckets = replicate w.bucket_count [];
          entries_by_key = [];
          last_processed_tick = rebase_last_tick w new_origin w.last_processed_tick;
        })
        w.entries_by_key

  -- the first `if` of `schedule`
  unfoldable pub ensure_origin : TimingWheel → Time → TimingWheel
  unfolding rebase_origin
  ensure_origin w expires_at = elim w.origin_timestamp [
    | none ↦ w
    | some origin ↦ if ltb expires_at origin then rebase_origin w expires_at else w
  ]

  unfoldable pub schedule : TimingWheel → Text → Time → TimingWheel
  unfolding ensure_origin tick_for_timestamp cancel
  schedule w key expires_at =
      let (w', tick) = tick_for_timestamp (ensure_origin w expires_at) expires_at in
      place (cancel w' key) key expires_at tick

  unfoldable pub pop_due : TimingWheel → Time → TimingWheel × List TimerEntry
  unfolding tick_for_timestamp pop_ticks
  pop_due w now = let (w', current) = tick_for_timestamp w now in pop_ticks now w' current
