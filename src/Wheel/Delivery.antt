-- ===== src/Wheel/Delivery.antt =====
-- When `pop_due` of src/timing_wheel.py delivers an entry: never early, at once if the tick of the
-- entry has not been processed, and otherwise only when the wheel has come round to its bucket.
use lite_store.Base.{
  ℕ, ◌+◌, ◌≡◌, ◌≤◌, ◌<◌, ◌∙◌, ap, subst, true, some, none, arith, ℤ, pos, pos_part, neg_part, ◌≤ℤ◌,
  ◌<ℤ◌, distance, ltb_ℤ, Option-cases, inl, inr, Bool-cases,
}
use lite_store.Base.Text.{Text, text_key}
use lite_store.Base.Dict.{lookup}
use lite_store.Clock.{Time, Clock, IsRegular}
use lite_store.Wheel.{ScheduledEntry, TimingWheel, pop_due, tick_for_timestamp}
use lite_store.Wheel.Filed.{IsFiled}
use lite_store.Wheel.Sweep.{listed}
use lite_store.Wheel.PopDue.{Pops, remains, started, current_tick, pop_due-Pops}
use lite_store.Wheel.Timed.{expiry, IsTimed, IsTimedEntry, tick_for_timestamp_set}
use lite_store.Wheel.Remains.{remains_early, remains_due, remains_full, remains_passed}

-- What an entry of a timed wheel says of the current tick.
record Facts (c : Clock) (w : TimingWheel) (now : Time) (e : ScheduledEntry) : Type 0 where
  same : started c w now ≡ w
  on : pos 0 ≤ℤ e.scheduled_tick
  reached : e.expires_at ≤ now → e.scheduled_tick ≤ℤ current_tick c w now

module _ (c : Clock) (regular : IsRegular c) {n : ℕ} (w : TimingWheel) (now : Time)
    (f : IsFiled n w) (t : IsTimed c w) where
  timed_reading :
      (e : ScheduledEntry)
      → IsTimedEntry c w.tick_seconds w.origin_timestamp (some e)
      → Facts c w now e
  timed_reading e timed = elim (Option-cases w.origin_timestamp) [
    | inl fresh ↦ absurd (ground arith)
    | inr (o, set) ↦
        let at = tick_for_timestamp_set c n o w now set in
        let s = w.tick_seconds in
        record {
          same = ap (λ (p : TimingWheel × ℤ). p.0) at;
          on = ground (arith, regular.tick_mono s o o e.expires_at, regular.tick_origin s o);
          reached = λ due.
              rw (ap (λ (p : TimingWheel × ℤ). p.1) at)
                (ground (arith, regular.tick_mono s o e.expires_at now due));
        }
  ]

  facts : (k : Text) (e : ScheduledEntry) → lookup k w.entries_by_key ≡ some e → Facts c w now e
  facts k e found =
      timed_reading e (subst (IsTimedEntry c w.tick_seconds w.origin_timestamp) found (t.timed k))

  pops : Pops n now (started c w now) (current_tick c w now) (pop_due c w now).0 (pop_due c w now).1
  pops = pop_due-Pops c w now f

  -- What `pop_due` leaves of an entry.
  left_of :
      (k : Text) (e : ScheduledEntry)
      → lookup k w.entries_by_key ≡ some e
      → lookup k (pop_due c w now).0.entries_by_key ≡ remains now w (current_tick c w now) (some e)
  left_of k e found =
      let same = (facts k e found).same in
      pops.entries k
      ∙ ap (λ v. remains now v (current_tick c w now) (lookup k v.entries_by_key)) same
      ∙ ap (remains now w (current_tick c w now)) found

  returned_if_gone :
      (k : Text) (e : ScheduledEntry)
      → lookup k w.entries_by_key ≡ some e
      → lookup k (pop_due c w now).0.entries_by_key ≡ none
      → listed k e.expires_at (pop_due c w now).1 ≡ true
  returned_if_gone k e found out =
      let before : lookup k (started c w now).entries_by_key ≡ some e =
        ap (λ (v : TimingWheel). lookup k v.entries_by_key) (facts k e found).same ∙ found in
      ground (arith, pops.returned k e.expires_at, before, out)

  pub entries-started :
      (k : Text) → lookup k (started c w now).entries_by_key ≡ lookup k w.entries_by_key
  entries-started k = unfold tick_for_timestamp in ground arith

  -- In a wheel whose entries are filed and timed, on a regular clock: what `pop_due` returns
  -- was scheduled for that time, its time has come, and it is no longer scheduled.
  pub pop_due_sound :
      (k : Text) (x : Time)
      → listed k x (pop_due c w now).1 ≡ true
      → (expiry (lookup k w.entries_by_key) ≡ some x)
        × (x ≤ now)
        × (lookup k (pop_due c w now).0.entries_by_key ≡ none)
  pop_due_sound k x h = elim (Option-cases (lookup k w.entries_by_key)) [
    | inl absent ↦ absurd (ground (arith, entries-started k, pops.returned k x))
    | inr (e, found) ↦ ground (
      arith,
      entries-started k,
      pops.returned k x,
      pops.entries k,
      λ (early : now < e.expires_at).
          remains_early now (started c w now) (current_tick c w now) e early,
    )
  ]

  -- In a wheel whose entries are filed and timed, on a regular clock: an entry whose tick is
  -- not processed yet and whose time has come is returned by `pop_due` and is no longer
  -- scheduled.
  pub pop_due_complete :
      (k : Text) (e : ScheduledEntry)
      → lookup k w.entries_by_key ≡ some e
      → w.last_processed_tick <ℤ e.scheduled_tick
      → e.expires_at ≤ now
      → (lookup k (pop_due c w now).0.entries_by_key ≡ none)
        × (listed k e.expires_at (pop_due c w now).1 ≡ true)
  pop_due_complete k e found after due =
      let a = facts k e found in
      let out : lookup k (pop_due c w now).0.entries_by_key ≡ none =
        left_of k e found
        ∙ remains_due now w (current_tick c w now) t.last e a.on after (a.reached due) due in
      (out, returned_if_gone k e found out)

  -- In a wheel whose entries are filed and timed, on a regular clock: an entry whose tick is
  -- already processed stays, due or not, while the current tick is less than a round of buckets
  -- after its own.
  pub pop_due_passed :
      (k : Text) (e : ScheduledEntry)
      → lookup k w.entries_by_key ≡ some e
      → e.scheduled_tick ≤ℤ w.last_processed_tick
      → pos_part (current_tick c w now) + neg_part e.scheduled_tick
        < pos_part e.scheduled_tick + neg_part (current_tick c w now) + n
      → lookup k (pop_due c w now).0.entries_by_key ≡ some e
  pop_due_passed k e found before near =
      left_of k e found
      ∙ remains_passed now w (current_tick c w now) t.last e (facts k e found).on before
          (omega (arith, f.sizes.count))

  -- In a wheel whose entries are filed and timed, on a regular clock: if there are at least as
  -- many ticks to process as buckets, every entry whose time has come is returned and is no
  -- longer scheduled.
  pub pop_due_round :
      (k : Text) (e : ScheduledEntry)
      → lookup k w.entries_by_key ≡ some e
      → n ≤ distance w.last_processed_tick (current_tick c w now)
      → e.expires_at ≤ now
      → (lookup k (pop_due c w now).0.entries_by_key ≡ none)
        × (listed k e.expires_at (pop_due c w now).1 ≡ true)
  pop_due_round k e found full due =
      elim (Bool-cases (ltb_ℤ w.last_processed_tick e.scheduled_tick)) [
        | inl after ↦ pop_due_complete k e found (ground arith) due
        | inr before ↦
            let out : lookup k (pop_due c w now).0.entries_by_key ≡ none =
              left_of k e found
              ∙ remains_full now w (current_tick c w now) t.last e (facts k e found).on
                  (omega (arith, f.sizes.count, f.sizes.positive)) (omega (arith, f.sizes.count))
                  (ground arith) due in
            (out, returned_if_gone k e found out)
      ]
