-- ===== src/Wheel/Filed.antt =====
-- A wheel is filed when its buckets hold exactly the keys that are scheduled, each in the bucket of
-- its tick. Every operation of the wheel keeps it so.
use native.Mathlib.Nat.{mod-lt}
use lite_store.Base.{
  ℕ, ◌≡◌, ◌<◌, Option-cases, inl, inr, refl, Bool, true, false, Option, none, some, [], ite, arith,
  ◌==◌, if◌then◌else◌, length, length-set, get_or, get_or-set, ℤ, pos, negsuc, mod_ℤ,
}
use lite_store.Base.Text.{Text, text_key}
use lite_store.Base.Dict.{
  lookup, insert, erase, add, discard, has, has-add, has-discard, lookup-erase, lookup-insert,
  IsDistinct, insert-IsDistinct, erase-IsDistinct,
}
use lite_store.Clock.{Time}
use lite_store.Wheel.{
  ScheduledEntry, TimingWheel, bucket_add, bucket_discard, bucket_for_tick, index_for_tick, cancel,
  place,
}

-- Does the bucket `i` of `n` hold a key with this entry?
abbrev pub filed : ℕ → Option ScheduledEntry → ℕ → Bool
filed n none i = false
filed n (some e) i = mod_ℤ e.scheduled_tick n == i

abbrev pub IsNamed : Text → Option ScheduledEntry → Type 0
IsNamed k none = Unit
IsNamed k (some e) = e.key ≡ k

pub record IsSized (n : ℕ) (w : TimingWheel) : Type 0 where
  pub count : w.bucket_count ≡ n
  pub positive : 0 < n
  pub sized : length w.buckets ≡ n

pub record IsFiled (n : ℕ) (w : TimingWheel) : Type 0 where
  pub sizes : IsSized n w
  pub exact :
      (k : Text) (i : ℕ) → has k (get_or w.buckets i []) ≡ filed n (lookup k w.entries_by_key) i
  pub distinct : IsDistinct w.entries_by_key
  pub named : (k : Text) → IsNamed k (lookup k w.entries_by_key)

pub mod_ℤ-lt : (t : ℤ) (n : ℕ) → 0 < n → mod_ℤ t n < n
mod_ℤ-lt (pos a) n h = mod-lt a h
mod_ℤ-lt (negsuc a) n h = omega arith

module _ {n : ℕ} (w : TimingWheel) (tick : ℤ) (key : Text) (h : IsSized n w) where
  index_fits : index_for_tick w tick < length w.buckets
  unfolding index_for_tick
  index_fits = rw (h.sized, h.count) (mod_ℤ-lt tick n h.positive)

  pub bucket_add-IsSized : IsSized n (bucket_add w tick key)
  unfolding bucket_add
  bucket_add-IsSized = record {
    count = h.count;
    positive = h.positive;
    sized = rw length-set h.sized;
  }

  pub bucket_discard-IsSized : IsSized n (bucket_discard w tick key)
  unfolding bucket_discard
  bucket_discard-IsSized = record {
    count = h.count;
    positive = h.positive;
    sized = rw length-set h.sized;
  }

  pub has-bucket_add :
      (k : Text) (i : ℕ)
      → has k (get_or (bucket_add w tick key).buckets i []) ≡ (
          if mod_ℤ tick n == i
          then ite (text_key.decide key k) true (has k (get_or w.buckets i []))
          else has k (get_or w.buckets i []))
  unfolding bucket_add
  has-bucket_add k i = ground (
    arith,
    h.count,
    get_or-set w.buckets (index_for_tick w tick) i (add key (bucket_for_tick w tick)) [] index_fits,
    has-add key k (bucket_for_tick w tick),
  )

  pub has-bucket_discard :
      (k : Text) (i : ℕ)
      → has k (get_or (bucket_discard w tick key).buckets i []) ≡ (
          if mod_ℤ tick n == i
          then ite (text_key.decide key k) false (has k (get_or w.buckets i []))
          else has k (get_or w.buckets i []))
  unfolding bucket_discard
  has-bucket_discard k i = ground (
    arith,
    h.count,
    get_or-set w.buckets (index_for_tick w tick) i (discard key (bucket_for_tick w tick)) []
        index_fits,
    has-discard key k (bucket_for_tick w tick),
  )

module _ {n : ℕ} {w : TimingWheel} (f : IsFiled n w) (key : Text) where
  -- A key that is not scheduled is in no bucket.
  pub discard_stale-IsFiled :
      (t : ℤ) → lookup key w.entries_by_key ≡ none → IsFiled n (bucket_discard w t key)
  discard_stale-IsFiled t gone = record {
    sizes = bucket_discard-IsSized w t key f.sizes;
    exact = λ k i.
        unfold bucket_discard in
        ground (arith, has-bucket_discard w t key f.sizes k i, f.exact k i, f.exact key i);
    distinct = unfold bucket_discard in f.distinct;
    named = λ k. unfold bucket_discard in f.named k;
  }

  -- Taking a key out of the bucket of its tick and out of the entries.
  pub unschedule-IsFiled :
      (t : ℤ) (e : ScheduledEntry)
      → lookup key w.entries_by_key ≡ some e
      → mod_ℤ e.scheduled_tick n ≡ mod_ℤ t n
      → IsFiled n (record (bucket_discard w t key) { entries_by_key = erase key w.entries_by_key })
  unschedule-IsFiled t e there same = record {
    sizes =
        let z = bucket_discard-IsSized w t key f.sizes in
        record { count = z.count; positive = z.positive; sized = z.sized };
    exact = λ k i. ground (
      arith,
      has-bucket_discard w t key f.sizes k i,
      lookup-erase key k w.entries_by_key,
      f.exact k i,
      f.exact key i,
    );
    distinct = erase-IsDistinct key w.entries_by_key f.distinct;
    named = λ k. ground (arith, lookup-erase key k w.entries_by_key, f.named k);
  }

  -- Taking a key out of the bucket of its tick and putting it back.
  pub requeue-IsFiled :
      (t : ℤ) (e : ScheduledEntry)
      → lookup key w.entries_by_key ≡ some e
      → mod_ℤ e.scheduled_tick n ≡ mod_ℤ t n
      → IsFiled n (bucket_add (bucket_discard w t key) e.scheduled_tick key)
  requeue-IsFiled t e there same =
      let w' = bucket_discard w t key in
      let sizes = bucket_discard-IsSized w t key f.sizes in
      record {
        sizes = bucket_add-IsSized w' e.scheduled_tick key sizes;
        exact = λ k i.
            unfold bucket_add bucket_discard in
            ground (
              arith,
              has-bucket_add w' e.scheduled_tick key sizes k i,
              has-bucket_discard w t key f.sizes k i,
              f.exact k i,
              f.exact key i,
            );
        distinct = unfold bucket_add bucket_discard in f.distinct;
        named = λ k. unfold bucket_add bucket_discard in f.named k;
      }

  pub lookup-cancel :
      (k : Text)
      → lookup k (cancel w key).entries_by_key
        ≡ ite (text_key.decide key k) none (lookup k w.entries_by_key)
  unfolding cancel bucket_discard
  lookup-cancel k = ground (arith, lookup-erase key k w.entries_by_key)

  -- Cancelling keeps the wheel filed.
  pub cancel-IsFiled : IsFiled n (cancel w key)
  unfolding cancel
  cancel-IsFiled = elim (Option-cases (lookup key w.entries_by_key)) [
    | inl gone ↦ rw (gone, cancel) f
    | inr (e, there) ↦
        rw (there, cancel)
          (unfold bucket_discard in unschedule-IsFiled e.scheduled_tick e there refl)
  ]

  -- Scheduling a key that is not scheduled.
  pub place-IsFiled :
      (expires_at : Time) (t : ℤ)
      → lookup key w.entries_by_key ≡ none
      → IsFiled n (place w key expires_at t)
  place-IsFiled expires_at t gone =
      let e : ScheduledEntry = record { key = key; expires_at = expires_at; scheduled_tick = t } in
      let w' : TimingWheel = record w { entries_by_key = insert key e w.entries_by_key } in
      let z = f.sizes in
      let sizes : IsSized n w' = record {
        count = z.count;
        positive = z.positive;
        sized = z.sized;
      } in
      record {
        sizes = unfold place in bucket_add-IsSized w' t key sizes;
        exact = λ k i.
            unfold place bucket_add in
            ground (
              arith,
              has-bucket_add w' t key sizes k i,
              lookup-insert key k e w.entries_by_key,
              f.exact k i,
              f.exact key i,
            );
        distinct = unfold place bucket_add in insert-IsDistinct key e w.entries_by_key f.distinct;
        named = λ k.
            unfold place bucket_add in
            ground (arith, lookup-insert key k e w.entries_by_key, f.named k);
      }

  pub lookup-place :
      (expires_at : Time) (t : ℤ) (k : Text)
      → lookup k (place w key expires_at t).entries_by_key
        ≡ ite
            (text_key.decide key k)
            (some (record { key = key; expires_at = expires_at; scheduled_tick = t }))
            (lookup k w.entries_by_key)
  unfolding place bucket_add
  lookup-place expires_at t k =
      lookup-insert key k (record { key = key; expires_at = expires_at; scheduled_tick = t })
        w.entries_by_key
