-- ===== src/Wheel/Timed.antt =====
-- A wheel is timed when each entry has the tick of its time, and no entry lies before the origin.
-- Together with the filing it is what `schedule`, `cancel` and `pop_due` keep; the theorem about
-- `schedule` covers the move of the origin to an earlier time.
use lite_store.Base.{
  ℕ, ◌≡◌, ◌≤◌, ◌⊎◌, refl, ap, Option, none, some, [], ◌∷◌, arith, ℤ, negsuc, ◌≤ℤ◌, All,
}
use lite_store.Base.Text.{Text, text_key}
use lite_store.Base.Dict.{Dict, lookup, IsDistinct}
use lite_store.Clock.{Time, Clock}
use lite_store.Wheel.{
  ScheduledEntry, TimingWheel, tick_for_timestamp, place, place_all, cancel, bucket_add,
  bucket_discard,
}
use lite_store.Wheel.Filed.{IsFiled, place-IsFiled, lookup-place, lookup-cancel}

-- The time of an entry.
abbrev pub expiry : Option ScheduledEntry → Option Time
expiry none = none
expiry (some e) = some e.expires_at

module _ (c : Clock) where
  abbrev pub IsTimedEntry : Time → Option Time → Option ScheduledEntry → Type 0
  IsTimedEntry seconds origin none = Unit
  IsTimedEntry seconds none (some e) = ⊥
  IsTimedEntry seconds (some o) (some e) =
      (o ≤ e.expires_at) × (e.scheduled_tick ≡ c.tick seconds o e.expires_at)

  pub record IsTimed (w : TimingWheel) : Type 0 where
    pub last : negsuc 0 ≤ℤ w.last_processed_tick
    pub timed :
        (k : Text) → IsTimedEntry w.tick_seconds w.origin_timestamp (lookup k w.entries_by_key)

  pub cancel-IsTimed :
      (n : ℕ) (w : TimingWheel) (key : Text) → IsFiled n w → IsTimed w → IsTimed (cancel w key)
  cancel-IsTimed n w key f t = record {
    last = unfold cancel bucket_discard in ground (arith, t.last);
    timed = λ k. ground (arith, lookup-cancel f key k, t.timed k, frame);
  }
    where
      frame :
          ((cancel w key).tick_seconds ≡ w.tick_seconds)
          × ((cancel w key).origin_timestamp ≡ w.origin_timestamp)
      frame = unfold cancel bucket_discard in ground arith

  -- What an old entry of a rebase must satisfy.
  abbrev pub IsOld : Time → Text → ScheduledEntry → Type 0
  IsOld o k e = (e.key ≡ k) × (o ≤ e.expires_at)

  -- From `w` to `w'` the entries of `d` were scheduled again.
  pub record Replaces (n : ℕ) (o : Time) (w : TimingWheel) (d : Dict Text ScheduledEntry)
      (w' : TimingWheel) : Type 0 where
    pub filed : IsFiled n w'
    pub timed : IsTimed w'
    pub origin : w'.origin_timestamp ≡ some o
    pub expiries :
        (k : Text)
        → expiry (lookup k w'.entries_by_key) ≡ elim (lookup k d) [
          | none ↦ expiry (lookup k w.entries_by_key)
          | some e ↦ some e.expires_at
        ]

  module _ (n : ℕ) (o : Time) where
    pub place-IsTimed :
        (w : TimingWheel) (key : Text) (x : Time)
        → IsFiled n w
        → IsTimed w
        → w.origin_timestamp ≡ some o
        → o ≤ x
        → IsTimed (place w key x (c.tick w.tick_seconds o x))
    place-IsTimed w key x f t set le = record {
      last = unfold place bucket_add in t.last;
      timed =
          λ k. ground (arith, lookup-place f key x (c.tick w.tick_seconds o x) k, t.timed k, frame);
    }
      where
        w' : TimingWheel
        w' = place w key x (c.tick w.tick_seconds o x)

        frame : (w'.tick_seconds ≡ w.tick_seconds) × (w'.origin_timestamp ≡ w.origin_timestamp)
        frame = unfold place bucket_add in (refl, refl)

    pub tick_for_timestamp_set :
        (w : TimingWheel) (x : Time)
        → w.origin_timestamp ≡ some o
        → tick_for_timestamp c w x ≡ (w, c.tick w.tick_seconds o x)
    unfolding tick_for_timestamp
    tick_for_timestamp_set w x set = ground arith

    place_all-cons :
        (k : Text) (e : ScheduledEntry) (d : Dict Text ScheduledEntry) (w : TimingWheel)
        → w.origin_timestamp ≡ some o
        → place_all c w ((k, e) ∷ d)
          ≡ place_all c (place w e.key e.expires_at (c.tick w.tick_seconds o e.expires_at)) d
    place_all-cons k e d w set =
        let at = tick_for_timestamp_set w e.expires_at set in
        let continue : TimingWheel × ℤ → TimingWheel =
          λ p. place_all c (place p.0 e.key e.expires_at p.1) d in
        unfold place_all in ap continue at

    pub place_all-Replaces :
        (d : Dict Text ScheduledEntry) (w : TimingWheel)
        → IsFiled n w
        → IsTimed w
        → w.origin_timestamp ≡ some o
        → IsDistinct d
        → All (λ p. IsOld o p.0 p.1) d
        → ((k : Text) → (lookup k d ≡ none) ⊎ (lookup k w.entries_by_key ≡ none))
        → Replaces n o w d (place_all c w d)
    unfolding lookup
    place_all-Replaces [] w f t set u a free =
        unfold place_all in record { filed = f; timed = t; origin = set; expiries = λ k. refl }
    place_all-Replaces ((k, e) ∷ d) w f t set u a free =
        let tick = c.tick w.tick_seconds o e.expires_at in
        let w' = place w e.key e.expires_at tick in
        let absent : lookup e.key w.entries_by_key ≡ none = ground (arith, free e.key) in
        let at = λ (j : Text). lookup-place f e.key e.expires_at tick j in
        let r =
          place_all-Replaces d w' (place-IsFiled f e.key e.expires_at tick absent)
            (place-IsTimed w e.key e.expires_at f t set a.0.1) (unfold place bucket_add in set) u.1
            a.1 (λ j. ground (arith, free j, at j)) in
        rw (place_all-cons k e d w set) record {
          filed = r.filed;
          timed = r.timed;
          origin = r.origin;
          expiries = λ j. ground (arith, r.expiries j, at j);
        }
