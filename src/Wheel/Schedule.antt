-- ===== src/Wheel/Schedule.antt =====
-- `schedule` of src/timing_wheel.py, with the move of the origin: it sets the time of its key and
-- keeps the times of all others.
use lite_store.Base.{
  ℕ, ◌≡◌, ◌≤◌, ◌<◌, ◌∙◌, ◌⊎◌, refl, sym, ap, subst, none, some, [], arith, ite, ℤ, pos, negsuc,
  ◌≤ℤ◌, replicate, length-replicate, get_or-replicate, Option-cases, inl, inr, ltb, Bool-cases,
}
use lite_store.Base.Text.{Text, text_key}
use lite_store.Base.Dict.{lookup, All-of_lookup, lookup-nil, has, has-nil}
use lite_store.Clock.{Time, Clock, IsRegular}
use lite_store.Wheel.{
  ScheduledEntry, TimingWheel, tick_for_timestamp, place, rebase_origin, rebase_last_tick,
  ensure_origin, schedule, cancel, bucket_discard,
}
use lite_store.Wheel.Filed.{
  IsFiled, filed, place-IsFiled, lookup-place, cancel-IsFiled, lookup-cancel,
}
use lite_store.Wheel.Timed.{
  expiry, IsTimed, IsOld, place_all-Replaces, place-IsTimed, cancel-IsTimed, tick_for_timestamp_set,
}

-- From `w` to `w'` no time changed, and `x` is not before the origin.
record IsReady (c : Clock) (n : ℕ) (w : TimingWheel) (x : Time) (w' : TimingWheel) : Type 0 where
  filed : IsFiled n w'
  timed : IsTimed c w'
  expiries : (k : Text) → expiry (lookup k w'.entries_by_key) ≡ expiry (lookup k w.entries_by_key)
  origin : (o : Time) × (w'.origin_timestamp ≡ some o) × (o ≤ x)

pub record Schedules (c : Clock) (n : ℕ) (w : TimingWheel) (key : Text) (x : Time)
    (w' : TimingWheel) : Type 0 where
  pub filed : IsFiled n w'
  pub timed : IsTimed c w'
  pub expiries :
      (k : Text)
      → expiry (lookup k w'.entries_by_key)
        ≡ ite (text_key.decide key k) (some x) (expiry (lookup k w.entries_by_key))

module _ (c : Clock) (regular : IsRegular c) {n : ℕ} (w : TimingWheel) (x : Time) (f : IsFiled n w)
    (t : IsTimed c w) where
  rebase_last_tick-le : (last : ℤ) → negsuc 0 ≤ℤ rebase_last_tick c w x last
  unfolding rebase_last_tick
  rebase_last_tick-le (negsuc m) = omega arith
  rebase_last_tick-le (pos m) =
      let s = w.tick_seconds in
      ground (
        arith,
        regular.tick_mono s x x (c.tick_start s x m) (regular.tick_start_mono s x m),
        regular.tick_origin s x,
      )

  abbrev emptied : TimingWheel
  emptied = record w {
    origin_timestamp = some x;
    buckets = replicate w.bucket_count [];
    entries_by_key = [];
    last_processed_tick = rebase_last_tick c w x w.last_processed_tick;
  }

  emptied-IsFiled : IsFiled n emptied
  emptied-IsFiled = record {
    sizes = record {
      count = f.sizes.count;
      positive = f.sizes.positive;
      sized = length-replicate w.bucket_count [] ∙ f.sizes.count;
    };
    exact = λ k i.
        ap (has k) (get_or-replicate w.bucket_count i [])
        ∙ has-nil k
        ∙ ap (λ o. filed n o i) (sym (lookup-nil k));
    distinct = tt;
    named = λ k. unfold lookup in tt;
  }

  emptied-IsTimed : IsTimed c emptied
  emptied-IsTimed = record {
    last = rebase_last_tick-le w.last_processed_tick;
    timed = λ k. unfold lookup in tt;
  }

  rebase_origin-IsReady :
      (o : Time) → w.origin_timestamp ≡ some o → x < o → IsReady c n w x (rebase_origin c w x)
  rebase_origin-IsReady o set lt =
      let r =
        place_all-Replaces c n x w.entries_by_key emptied emptied-IsFiled emptied-IsTimed refl
          f.distinct
          (All-of_lookup (IsOld c x) w.entries_by_key f.distinct
            (λ k e found. ground (arith, f.named k, t.timed k)))
          (λ k. inr (lookup-nil k)) in
      unfold rebase_origin in
      record {
        filed = r.filed;
        timed = r.timed;
        expiries = λ k. ground (arith, r.expiries k, lookup-nil {V = ScheduledEntry} k);
        origin = (x, r.origin, omega arith);
      }

  ensure_origin-cases :
      ((w.origin_timestamp ≡ none) × (ensure_origin c w x ≡ w))
      ⊎ IsReady c n w x (ensure_origin c w x)
  ensure_origin-cases = elim (Option-cases w.origin_timestamp) [
    | inl fresh ↦ inl (fresh, unfold ensure_origin in ground arith)
    | inr (o, set) ↦ elim (Bool-cases (ltb x o)) [
      | inl before ↦
          let e : ensure_origin c w x ≡ rebase_origin c w x =
            unfold ensure_origin in ground arith in
          inr (rw e (rebase_origin-IsReady o set (ground arith)))
      | inr after ↦
          let e : ensure_origin c w x ≡ w = unfold ensure_origin in ground arith in
          inr (
            rw e record {
              filed = f;
              timed = t;
              expiries = λ k. refl;
              origin = (o, set, ground arith);
            })
    ]
  ]

  -- The first call fixes the origin of a wheel that has no entry yet.
  fresh-IsReady :
      w.origin_timestamp ≡ none → IsReady c n w x (record w { origin_timestamp = some x })
  fresh-IsReady fresh = record {
    filed = record {
      sizes = record { count = f.sizes.count; positive = f.sizes.positive; sized = f.sizes.sized };
      exact = f.exact;
      distinct = f.distinct;
      named = f.named;
    };
    timed = record { last = t.last; timed = λ k. ground (arith, t.timed k) };
    expiries = λ k. refl;
    origin = (x, refl, omega arith);
  }

  scheduled : (w' : TimingWheel) (key : Text) → IsReady c n w x w' → TimingWheel
  scheduled w' key r = place (cancel w' key) key x (c.tick w'.tick_seconds r.origin.0 x)

  scheduled-Schedules :
      (w' : TimingWheel) (key : Text) (r : IsReady c n w x w')
      → Schedules c n w key x (scheduled w' key r)
  scheduled-Schedules w' key r =
      let o = r.origin.0 in
      let v = cancel w' key in
      let fv = cancel-IsFiled r.filed key in
      let tick = c.tick w'.tick_seconds o x in
      let at = lookup-cancel r.filed key in
      let frame : (v.tick_seconds ≡ w'.tick_seconds) × (v.origin_timestamp ≡ w'.origin_timestamp) =
        unfold cancel bucket_discard in ground arith in
      let timed =
        subst (λ s. IsTimed c (place v key x (c.tick s o x))) frame.0
          (place-IsTimed c n o v key x fv (cancel-IsTimed c n w' key r.filed r.timed)
            (frame.1 ∙ r.origin.1) r.origin.2) in
      let absent : lookup key v.entries_by_key ≡ none = ground (arith, at key) in
      unfold scheduled in
      record {
        filed = place-IsFiled fv key x tick absent;
        timed = timed;
        expiries = λ k. ground (arith, lookup-place fv key x tick k, at k, r.expiries k);
      }

  -- For a wheel whose entries are filed and timed, on a regular clock: `schedule` gives the key
  -- its new time, keeps the time of every other key, and keeps the wheel filed and timed,
  -- whether or not it has to move the origin.
  pub schedule-Schedules : (key : Text) → Schedules c n w key x (schedule c w key x)
  schedule-Schedules key = elim ensure_origin-cases [
    | inl (fresh, same) ↦
        let r = fresh-IsReady fresh in
        let e : schedule c w key x ≡ scheduled (record w { origin_timestamp = some x }) key r =
          unfold schedule scheduled fresh-IsReady in
          ap finish (ap (λ v. tick_for_timestamp c v x) same ∙ first fresh) in
        rw e (scheduled-Schedules _ key r)
    | inr r ↦
        let w' = ensure_origin c w x in
        let e : schedule c w key x ≡ scheduled w' key r =
          unfold schedule scheduled in
          ap finish (tick_for_timestamp_set c n r.origin.0 w' x r.origin.1) in
        rw e (scheduled-Schedules w' key r)
  ]
    where
      finish : TimingWheel × ℤ → TimingWheel
      finish p = place (cancel p.0 key) key x p.1

      first :
          w.origin_timestamp ≡ none
          → tick_for_timestamp c w x
            ≡ (record w { origin_timestamp = some x }, c.tick w.tick_seconds x x)
      first fresh = unfold tick_for_timestamp in ground arith
