-- ===== src/Wheel/Sweep.antt =====
-- What the loops of `pop_due` do to a filed wheel: which entries leave it, and which are returned.
use lite_store.Base.{
  ℕ, ◌≡◌, ◌∙◌, ap, refl, Bool, true, false, ◌&&◌, ◌||◌, not, Option, none, some, List, [], ◌∷◌,
  ◌++◌, ite, arith, ◌==◌, leb, ltb_ℤ, if◌then◌else◌, Bool-cases, ◌⊎◌, inl, inr, ℤ, mod_ℤ, All,
}
use lite_store.Base.Text.{Text, text_key}
use lite_store.Base.Dict.{lookup, has, lookup-erase}
use lite_store.Clock.{Time}
use lite_store.Wheel.{
  ScheduledEntry, TimerEntry, Scan, visit, visit_entry, visit_all, scan, bucket_add, bucket_discard,
  bucket_for_tick,
}
use lite_store.Wheel.Filed.{
  IsFiled, filed, discard_stale-IsFiled, unschedule-IsFiled, requeue-IsFiled,
}

-- The test that a visit at `tick` makes of the entry of its key.
unfoldable pub takes : Time → ℤ → ScheduledEntry → Bool
takes now tick e = not (ltb_ℤ tick e.scheduled_tick) && leb e.expires_at now

-- What a visit of its key leaves of an entry.
abbrev pub leave : Time → ℤ → Option ScheduledEntry → Option ScheduledEntry
leave now tick none = none
leave now tick (some e) = if takes now tick e then none else some e

-- What the pass over one bucket, and over the buckets of several ticks, leaves of an entry.
abbrev pub pass : ℕ → Time → ℤ → Option ScheduledEntry → Option ScheduledEntry
pass n now tick none = none
pass n now tick (some e) =
    if mod_ℤ e.scheduled_tick n == mod_ℤ tick n then leave now tick (some e) else some e

unfoldable pub sweep : ℕ → Time → List ℤ → Option ScheduledEntry → Option ScheduledEntry
sweep n now [] o = o
sweep n now (tick ∷ ticks) o = sweep n now ticks (pass n now tick o)

-- Is there an entry for this key and time in the list?
unfoldable pub listed : Text → Time → List TimerEntry → Bool
listed k x [] = false
listed k x (e ∷ l) = (ite (text_key.decide e.key k) (e.expires_at == x) false) || listed k x l

-- An entry with this time was there before, and is not there after.
abbrev pub gone : Time → Option ScheduledEntry → Option ScheduledEntry → Bool
gone x (some e) none = e.expires_at == x
gone x _ _ = false

listed-append :
    (k : Text) (x : Time) (l m : List TimerEntry)
    → listed k x (l ++ m) ≡ (listed k x l || listed k x m)
unfolding listed
listed-append k x [] m = refl
listed-append k x (e ∷ l) m = ground (arith, listed-append k x l m)

-- From `s` to `s'` each entry became what `g` leaves of it, and what left is in the list of due
-- entries.
pub record Takes (n : ℕ) (s s' : Scan) (g : Text → Option ScheduledEntry → Option ScheduledEntry)
    : Type 0 where
  pub filed : IsFiled n s'.wheel
  pub entries :
      (k : Text) → lookup k s'.wheel.entries_by_key ≡ g k (lookup k s.wheel.entries_by_key)
  pub due :
      (k : Text) (x : Time)
      → listed k x s'.due ≡ (
          listed k x s.due
          || gone x (lookup k s.wheel.entries_by_key) (lookup k s'.wheel.entries_by_key))
  pub kept :
      (k : Text)
      → (lookup k s'.wheel.entries_by_key ≡ lookup k s.wheel.entries_by_key)
        ⊎ (lookup k s'.wheel.entries_by_key ≡ none)
  pub tick_seconds : s'.wheel.tick_seconds ≡ s.wheel.tick_seconds
  pub origin : s'.wheel.origin_timestamp ≡ s.wheel.origin_timestamp

abbrev InBucket : ℕ → ℤ → Option ScheduledEntry → Type 0
InBucket n tick none = Unit
InBucket n tick (some e) = mod_ℤ e.scheduled_tick n ≡ mod_ℤ tick n

-- what a visit of `key` leaves of the entry of `k`
abbrev leave_at : Time → ℤ → Text → Text → Option ScheduledEntry → Option ScheduledEntry
leave_at now tick key k o = ite (text_key.decide key k) (leave now tick o) o

module _ {n : ℕ} (now : Time) (tick : ℤ) (s : Scan) (key : Text) (f : IsFiled n s.wheel) where
  entry-Takes :
      (o : Option ScheduledEntry)
      → lookup key s.wheel.entries_by_key ≡ o
      → InBucket n tick o
      → Takes n s (visit_entry now tick s key o) (leave_at now tick key)
  unfolding visit_entry bucket_discard bucket_add takes
  entry-Takes none absent _ = record {
    filed = discard_stale-IsFiled f key tick absent;
    kept = λ k. inl refl;
    entries = λ k. ground arith;
    due = λ k x. ground arith;
    tick_seconds = refl;
    origin = refl;
  }
  entry-Takes (some e) there same = elim (Bool-cases (ltb_ℤ tick e.scheduled_tick)) [
    | inl early ↦ rw early record {
      filed = f;
      kept = λ k. inl refl;
      entries = λ k. ground arith;
      due = λ k x. ground arith;
      tick_seconds = refl;
      origin = refl;
    }
    | inr reached ↦ elim (Bool-cases (leb e.expires_at now)) [
      | inl over ↦
          rw (reached, over)
            record {
              filed = unschedule-IsFiled f key tick e there same;
              kept = λ k. ground (arith, lookup-erase key k s.wheel.entries_by_key);
              entries = λ k. ground (arith, lookup-erase key k s.wheel.entries_by_key);
              due = λ k x.
                  unfold listed in
                  ground (
                    arith,
                    lookup-erase key k s.wheel.entries_by_key,
                    listed-append k x s.due
                        (record { key = e.key; expires_at = e.expires_at } ∷ []),
                    f.named key,
                  );
              tick_seconds = refl;
              origin = refl;
            }
      | inr ahead ↦
          rw (reached, ahead)
            record {
              filed = requeue-IsFiled f key tick e there same;
              kept = λ k. inl refl;
              entries = λ k. ground arith;
              due = λ k x. ground arith;
              tick_seconds = refl;
              origin = refl;
            }
    ]
  ]

Takes-trans :
    {n : ℕ} (s t u : Scan) {g h : Text → Option ScheduledEntry → Option ScheduledEntry}
    → Takes n s t g
    → Takes n t u h
    → Takes n s u (λ k o. h k (g k o))
Takes-trans s t u {g} {h} a b = record {
  filed = b.filed;
  entries = λ k. b.entries k ∙ ap (h k) (a.entries k);
  due = λ k x. ground (arith, a.due k x, b.due k x, a.kept k, b.kept k);
  kept = λ k. ground (arith, a.kept k, b.kept k);
  tick_seconds = b.tick_seconds ∙ a.tick_seconds;
  origin = b.origin ∙ a.origin;
}

Takes-cong :
    {n : ℕ} (s t : Scan) {g h : Text → Option ScheduledEntry → Option ScheduledEntry}
    → ((k : Text) → g k (lookup k s.wheel.entries_by_key) ≡ h k (lookup k s.wheel.entries_by_key))
    → Takes n s t g
    → Takes n s t h
Takes-cong s t e a = record {
  filed = a.filed;
  entries = λ k. a.entries k ∙ e k;
  due = a.due;
  kept = a.kept;
  tick_seconds = a.tick_seconds;
  origin = a.origin;
}

visit-Takes :
    {n : ℕ} (now : Time) (tick : ℤ) (s : Scan) (key : Text)
    → IsFiled n s.wheel
    → InBucket n tick (lookup key s.wheel.entries_by_key)
    → Takes n s (visit now tick s key) (leave_at now tick key)
unfolding visit
visit-Takes now tick s key f here = entry-Takes now tick s key f _ refl here

-- what the visits of all `keys` leave
abbrev leave_all : Time → ℤ → List Text → Text → Option ScheduledEntry → Option ScheduledEntry
leave_all now tick keys k o = if has k keys then leave now tick o else o

leave_all-cons :
    (now : Time) (tick : ℤ) (key : Text) (keys : List Text) (k : Text) (o : Option ScheduledEntry)
    → leave_all now tick keys k (leave_at now tick key k o) ≡ leave_all now tick (key ∷ keys) k o
unfolding has
leave_all-cons now tick key keys k none = ground arith
leave_all-cons now tick key keys k (some e) = ground arith

module _ {n : ℕ} (now : Time) (tick : ℤ) where
  InBucket-kept :
      (s t : Scan) {g : Text → Option ScheduledEntry → Option ScheduledEntry}
      → Takes n s t g
      → (keys : List Text) → All (λ k. InBucket n tick (lookup k s.wheel.entries_by_key)) keys
      → All (λ k. InBucket n tick (lookup k t.wheel.entries_by_key)) keys
  InBucket-kept s t a [] h = tt
  InBucket-kept s t a (k ∷ keys) h = (ground (arith, a.kept k, h.0), InBucket-kept s t a keys h.1)

  visit_all-Takes :
      (keys : List Text) (s : Scan)
      → IsFiled n s.wheel
      → All (λ k. InBucket n tick (lookup k s.wheel.entries_by_key)) keys
      → Takes n s (visit_all now tick keys s) (leave_all now tick keys)
  unfolding visit_all has
  visit_all-Takes [] s f h = record {
    filed = f;
    entries = λ k. refl;
    due = λ k x. ground arith;
    kept = λ k. inl refl;
    tick_seconds = refl;
    origin = refl;
  }
  visit_all-Takes (key ∷ keys) s f h =
      let t = visit now tick s key in
      let a = visit-Takes now tick s key f h.0 in
      let b = visit_all-Takes keys t a.filed (InBucket-kept s t a keys h.1) in
      Takes-cong s (visit_all now tick keys t)
        (λ k. leave_all-cons now tick key keys k (lookup k s.wheel.entries_by_key))
        (Takes-trans s t (visit_all now tick keys t) a b)

-- A property that holds at each member holds of the whole list.
All-of_has : (P : Text → Type 0) (l : List Text) → ((k : Text) → has k l ≡ true → P k) → All P l
All-of_has P [] h = tt
All-of_has P (k ∷ l) h =
    (h k (unfold has in ground arith), All-of_has P l (λ j m. h j (unfold has in ground arith)))

module _ {n : ℕ} (now : Time) where
  module _ (tick : ℤ) (s : Scan) (f : IsFiled n s.wheel) where
    has-bucket :
        (k : Text)
        → has k (bucket_for_tick s.wheel tick)
          ≡ filed n (lookup k s.wheel.entries_by_key) (mod_ℤ tick n)
    has-bucket k = unfold bucket_for_tick in rw f.sizes.count (f.exact k (mod_ℤ tick n))

    -- The pass over the bucket of one tick.
    pass-Takes :
        Takes n s (visit_all now tick (bucket_for_tick s.wheel tick) s) (λ k. pass n now tick)
    pass-Takes =
        let bucket = bucket_for_tick s.wheel tick in
        Takes-cong s (visit_all now tick bucket s) (λ k. ground (arith, has-bucket k))
          (visit_all-Takes now tick bucket s f
            (All-of_has _ bucket (λ k m. ground (arith, has-bucket k))))

  pub scan-Takes :
      (ticks : List ℤ) (s : Scan)
      → IsFiled n s.wheel
      → Takes n s (scan now ticks s) (λ k. sweep n now ticks)
  unfolding scan sweep
  scan-Takes [] s f = record {
    filed = f;
    entries = λ k. refl;
    due = λ k x. ground arith;
    kept = λ k. inl refl;
    tick_seconds = refl;
    origin = refl;
  }
  scan-Takes (tick ∷ ticks) s f =
      let t = visit_all now tick (bucket_for_tick s.wheel tick) s in
      let a = pass-Takes tick s f in
      Takes-trans s t (scan now ticks t) a (scan-Takes ticks t a.filed)
