-- ===== src/Wheel/Remains.antt =====
-- What `pop_due` leaves of one entry, by the tick and the time of the entry.
use lite_store.Base.{
  ℕ, ◌+◌, ◌≡◌, ◌≤◌, ◌<◌, refl, some, none, arith, ℤ, pos, negsuc, pos_part, neg_part, ◌≤ℤ◌, ◌<ℤ◌,
  next, distance, leb_ℤ, inl, inr, Bool-cases,
}
use lite_store.Base.Text.{text_key}
use lite_store.Clock.{Time}
use lite_store.Wheel.{ScheduledEntry, TimingWheel, ticks_from}
use lite_store.Wheel.Ranges.{sweep-none, sweep_early, sweep_range, sweep_full, sweep_passed}
use lite_store.Wheel.PopDue.{remains}

next_nonneg : (last : ℤ) → negsuc 0 ≤ℤ last → next last ≡ pos (pos_part (next last))
next_nonneg (pos a) h = ground arith
next_nonneg (negsuc a) h = ground arith

pos_of_nonneg : (t : ℤ) → pos 0 ≤ℤ t → t ≡ pos (pos_part t)
pos_of_nonneg (pos a) h = refl
pos_of_nonneg (negsuc a) h = absurd (omega arith)

module _ (now : Time) (w : TimingWheel) (current : ℤ) where
  pub remains-none : remains now w current none ≡ none
  unfolding remains
  remains-none = ground (
    arith,
    sweep-none w.bucket_count now
        (ticks_from (next w.last_processed_tick) (distance w.last_processed_tick current)),
  )

  pub remains_early :
      (e : ScheduledEntry) → now < e.expires_at → remains now w current (some e) ≡ some e
  unfolding remains
  remains_early e h = ground (
    arith,
    sweep_early w.bucket_count now e
        (ticks_from (next w.last_processed_tick) (distance w.last_processed_tick current)) h,
  )

  -- the range that the loop of `pop_due` goes over
  abbrev pub steps : ℕ
  steps = distance w.last_processed_tick current

  module _ (last : negsuc 0 ≤ℤ w.last_processed_tick) (e : ScheduledEntry)
      (on : pos 0 ≤ℤ e.scheduled_tick) where
    abbrev first : ℕ
    first = pos_part (next w.last_processed_tick)

    abbrev own : ℕ
    own = pos_part e.scheduled_tick

    first-eq : next w.last_processed_tick ≡ pos first
    first-eq = next_nonneg w.last_processed_tick last

    own-eq : e.scheduled_tick ≡ pos own
    own-eq = pos_of_nonneg e.scheduled_tick on

    -- the tick of a due entry that is not processed yet
    pub remains_due :
        w.last_processed_tick <ℤ e.scheduled_tick
        → e.scheduled_tick ≤ℤ current
        → e.expires_at ≤ now
        → remains now w current (some e) ≡ none
    unfolding remains
    remains_due after before due =
        let swept =
          sweep_range w.bucket_count now e own own-eq steps first (ground arith) (ground arith)
            due in
        ground (arith, first-eq, swept)

    pub remains_full :
        0 < w.bucket_count
        → w.bucket_count ≤ steps
        → e.scheduled_tick ≤ℤ w.last_processed_tick
        → e.expires_at ≤ now
        → remains now w current (some e) ≡ none
    unfolding remains
    remains_full some_bucket full before due =
        let swept =
          sweep_full w.bucket_count now e own own-eq steps first some_bucket full (ground arith)
            due in
        ground (arith, first-eq, swept)

    pub remains_passed :
        e.scheduled_tick ≤ℤ w.last_processed_tick
        → pos_part current + neg_part e.scheduled_tick
          < pos_part e.scheduled_tick + neg_part current + w.bucket_count
        → remains now w current (some e) ≡ some e
    unfolding remains
    remains_passed before near = elim (Bool-cases (leb_ℤ current w.last_processed_tick)) [
      | inl past ↦ rw past
      | inr ahead ↦
          let swept =
            sweep_passed w.bucket_count now e own own-eq steps first (ground arith)
              (ground arith) in
          ground (arith, first-eq, swept)
    ]
