-- ===== src/Wheel/PopDue.antt =====
-- `pop_due` of src/timing_wheel.py, exactly: the entries that it takes out of the wheel and returns.
use lite_store.Base.{
  ℕ, ◌≡◌, ◌∙◌, ◌⊎◌, refl, Option, none, List, [], ◌∷◌, arith, leb_ℤ, next, distance, if◌then◌else◌,
  Bool-cases, inl, inr, ℤ,
}
use lite_store.Base.Text.{Text, text_key}
use lite_store.Base.Dict.{lookup}
use lite_store.Clock.{Time, Clock}
use lite_store.Wheel.{
  ScheduledEntry, TimerEntry, TimingWheel, Scan, tick_for_timestamp, ticks_from, scan, pop_due,
  pop_ticks, insert_by_expiry, sort_by_expiry,
}
use lite_store.Wheel.Filed.{IsFiled}
use lite_store.Wheel.Sweep.{sweep, listed, gone, scan-Takes}

listed-insert_by_expiry :
    (k : Text) (x : Time) (e : TimerEntry) (l : List TimerEntry)
    → listed k x (insert_by_expiry e l) ≡ listed k x (e ∷ l)
unfolding listed insert_by_expiry
listed-insert_by_expiry k x e [] = refl
listed-insert_by_expiry k x e (f ∷ l) = ground (arith, listed-insert_by_expiry k x e l)

listed-cons :
    (k : Text) (x : Time) (e : TimerEntry) (l m : List TimerEntry)
    → listed k x l ≡ listed k x m
    → listed k x (e ∷ l) ≡ listed k x (e ∷ m)
unfolding listed
listed-cons k x e l m h = ground arith

listed-sort_by_expiry :
    (k : Text) (x : Time) (l : List TimerEntry) → listed k x (sort_by_expiry l) ≡ listed k x l
unfolding sort_by_expiry
listed-sort_by_expiry k x [] = refl
listed-sort_by_expiry k x (e ∷ l) =
    listed-insert_by_expiry k x e (sort_by_expiry l)
    ∙ listed-cons k x e (sort_by_expiry l) l (listed-sort_by_expiry k x l)

-- The specification: what `pop_due` at `now`, with this current tick, leaves of an entry.
unfoldable pub remains : Time → TimingWheel → ℤ → Option ScheduledEntry → Option ScheduledEntry
remains now w current o =
    let last = w.last_processed_tick in
    if leb_ℤ current last
    then o
    else sweep w.bucket_count now (ticks_from (next last) (distance last current)) o

-- From `w` to `w'` each entry became what `remains` leaves of it, and what left is in `due`.
pub record Pops (n : ℕ) (now : Time) (w : TimingWheel) (current : ℤ) (w' : TimingWheel)
    (due : List TimerEntry) : Type 0 where
  pub filed : IsFiled n w'
  pub entries :
      (k : Text) → lookup k w'.entries_by_key ≡ remains now w current (lookup k w.entries_by_key)
  pub returned :
      (k : Text) (x : Time)
      → listed k x due ≡ gone x (lookup k w.entries_by_key) (lookup k w'.entries_by_key)
  pub kept :
      (k : Text)
      → (lookup k w'.entries_by_key ≡ lookup k w.entries_by_key)
        ⊎ (lookup k w'.entries_by_key ≡ none)
  pub tick_seconds : w'.tick_seconds ≡ w.tick_seconds
  pub origin : w'.origin_timestamp ≡ w.origin_timestamp
  pub last :
      w'.last_processed_tick
      ≡ (if leb_ℤ current w.last_processed_tick then w.last_processed_tick else current)

pop_ticks-Pops :
    (n : ℕ) (now : Time) (w : TimingWheel) (current : ℤ)
    → IsFiled n w
    → Pops n now w current (pop_ticks now w current).0 (pop_ticks now w current).1
unfolding pop_ticks remains
pop_ticks-Pops n now w current f = elim (Bool-cases (leb_ℤ current w.last_processed_tick)) [
  | inl past ↦ rw past record {
    filed = f;
    entries = λ k. ground arith;
    returned = λ k x. unfold listed in ground arith;
    kept = λ k. inl refl;
    tick_seconds = refl;
    origin = refl;
    last = ground arith;
  }
  | inr ahead ↦
      let start : Scan = record { wheel = w; due = [] } in
      let ticks =
        ticks_from (next w.last_processed_tick) (distance w.last_processed_tick current) in
      let a = scan-Takes now ticks start f in
      let g = a.filed in
      let z = g.sizes in
      let due = (scan now ticks start).due in
      rw ahead record {
        filed = record {
          sizes = record { count = z.count; positive = z.positive; sized = z.sized };
          exact = g.exact;
          distinct = g.distinct;
          named = g.named;
        };
        entries = λ k. ground (arith, a.entries k, f.sizes.count);
        returned = λ k x. listed-sort_by_expiry k x due ∙ a.due k x ∙ unfold listed in refl;
        kept = λ k. a.kept k;
        tick_seconds = a.tick_seconds;
        origin = a.origin;
        last = ground arith;
      }
]

module _ (c : Clock) (w : TimingWheel) (now : Time) where
  -- the wheel and the current tick that the first line of `pop_due` makes
  abbrev pub started : TimingWheel
  started = (tick_for_timestamp c w now).0

  abbrev pub current_tick : ℤ
  current_tick = (tick_for_timestamp c w now).1

  pub started-IsFiled : {n : ℕ} → IsFiled n w → IsFiled n started
  unfolding tick_for_timestamp
  started-IsFiled {n} f = ground (arith, moved)
    where
      moved : (origin : Option Time) → IsFiled n (record w { origin_timestamp = origin })
      moved origin = record {
        sizes = record {
          count = f.sizes.count;
          positive = f.sizes.positive;
          sized = f.sizes.sized;
        };
        exact = f.exact;
        distinct = f.distinct;
        named = f.named;
      }

  -- For a filed wheel: `pop_due` keeps it filed, leaves exactly the entries that the
  -- specification `remains` leaves, returns exactly those that left, and moves the last
  -- processed tick to the current one, never back.
  pub pop_due-Pops :
      {n : ℕ}
      → IsFiled n w
      → Pops n now started current_tick (pop_due c w now).0 (pop_due c w now).1
  unfolding pop_due
  pop_due-Pops {n} f = pop_ticks-Pops n now started current_tick (started-IsFiled f)
