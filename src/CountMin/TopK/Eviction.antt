-- ===== src/CountMin/TopK/Eviction.antt =====
-- Which keys the tracker keeps, and what their counts tell.
use lite_store.Base.{
  ℕ, ◌≤◌, ◌<◌, ◌≡◌, ◌≢◌, ◌⊎◌, subst, refl, ap, arith, true, false, Option, none, some, List, [],
  ◌∷◌, length, ltb, ite, Bool-cases, inl, inr,
}
use lite_store.Base.Text.{Text, text_key}
use lite_store.Base.Dict.{lookup, erase, lookup-insert, lookup-erase}
use lite_store.CountMin.TopK.{
  TopKTracker, peek_min, track, compact_heap, record_again, replace_min, record_found,
  record_estimated,
}
use lite_store.CountMin.TopK.Heaps.{
  held, IsAscending, first_least, held-peek_min, peek_min-IsAscending,
}
use lite_store.CountMin.TopK.Tracking.{IsTracking, first_tracked}

module _ (t : TopKTracker) (key : Text) (estimated : ℕ) where
  again_lookup :
      (j : Text)
      → lookup j (record_again t key estimated).tracked
        ≡ ite (text_key.decide key j) (some estimated) (lookup j t.tracked)
  unfolding record_again track compact_heap
  again_lookup j = ground (arith, lookup-insert key j estimated t.tracked)

  abbrev pub Comes : Text → ℕ → Type 0
  Comes j n = ((key ≡ j) × (n ≡ estimated)) ⊎ ((key ≢ j) × (lookup j t.tracked ≡ some n))

  old-Comes :
      (j : Text) (n : ℕ) → lookup key t.tracked ≡ none → lookup j t.tracked ≡ some n → Comes j n
  old-Comes j n absent found = elim (text_key.decide key j) [
    | yes same ↦ absurd (cc (absent, found, ap (λ i. lookup i t.tracked) same))
    | no other ↦ inr (other, found)
  ]

  track-Comes : (j : Text) (n : ℕ) → lookup j (track t key estimated).tracked ≡ some n → Comes j n
  unfolding track
  track-Comes j n found = ground (arith, lookup-insert key j estimated t.tracked)

  replace-Comes :
      (heap : List (ℕ × Text)) (j : Text) (n : ℕ)
      → lookup key t.tracked ≡ none
      → lookup j (replace_min t key estimated heap).tracked ≡ some n
      → Comes j n
  unfolding replace_min track
  replace-Comes [] j n absent found = old-Comes j n absent found
  replace-Comes ((m, evicted) ∷ rest) j n absent found = ground (
    arith,
    old-Comes j n absent,
    lookup-insert key j estimated (erase evicted t.tracked),
    lookup-erase evicted j t.tracked,
  )

  -- A count of the tracker after `record` is the new estimate of the recorded key, or was there
  -- before.
  found-Comes :
      (o : Option ℕ) (j : Text) (n : ℕ)
      → lookup key t.tracked ≡ o
      → lookup j (record_found t key estimated o).tracked ≡ some n
      → Comes j n
  unfolding record_found
  found-Comes (some m) j n there found = ground (arith, again_lookup j)
  found-Comes none j n absent found =
      ground (arith, track-Comes j n, replace-Comes (peek_min t.tracked t.heap) j n absent)

  pub estimated-Comes :
      (j : Text) (n : ℕ) → lookup j (record_estimated t key estimated).tracked ≡ some n → Comes j n
  unfolding record_estimated
  estimated-Comes j n found = found-Comes (lookup key t.tracked) j n refl found

  -- What `record` does for a key that is not tracked when the tracker is full.
  pub data Contests (t' : TopKTracker) : Type 0 where
    stays :
        ((j : Text) (n : ℕ) → lookup j t.tracked ≡ some n → estimated ≤ n)
        → t'.tracked ≡ t.tracked
        → Contests t'
    enters :
        (evicted : Text)
        → (m : ℕ) → lookup evicted t.tracked ≡ some m
        → m < estimated
        → ((j : Text) (n : ℕ) → lookup j t.tracked ≡ some n → m ≤ n)
        → ((j : Text)
            → lookup j t'.tracked
              ≡ ite
                  (text_key.decide key j)
                  (some estimated)
                  (ite (text_key.decide evicted j) none (lookup j t.tracked)))
        → Contests t'

  module _ (v : IsTracking t) where
    least_first :
        (m : ℕ) (evicted : Text) (rest : List (ℕ × Text))
        → peek_min t.tracked t.heap ≡ (m, evicted) ∷ rest
        → (j : Text) (n : ℕ) → lookup j t.tracked ≡ some n
        → m ≤ n
    least_first m evicted rest peeked j n found =
        first_least j n m evicted rest
          (subst IsAscending peeked (peek_min-IsAscending t.tracked t.heap v.ascending))
          (subst (λ h. held j n h ≡ true) peeked
            (held-peek_min t.tracked j n t.heap found (v.entered j n found)))

    nothing_tracked :
        peek_min t.tracked t.heap ≡ [] → (j : Text) (n : ℕ) → lookup j t.tracked ≡ some n → ⊥
    nothing_tracked peeked j n found =
        let gone : held j n [] ≡ true =
          subst (λ h. held j n h ≡ true) peeked
            (held-peek_min t.tracked j n t.heap found (v.entered j n found)) in
        absurd (unfold held in cc gone)

    replace-Contests :
        (heap : List (ℕ × Text))
        → peek_min t.tracked t.heap ≡ heap
        → Contests (replace_min t key estimated heap)
    unfolding replace_min
    replace-Contests [] peeked = stays (λ j n found. absurd (nothing_tracked peeked j n found)) refl
    replace-Contests ((m, evicted) ∷ rest) peeked = elim (Bool-cases (ltb m estimated)) [
      | inl more ↦ rw more (
          enters evicted m (first_tracked t key estimated v m evicted rest peeked) (ground arith)
            (least_first m evicted rest peeked)
            (λ j.
              unfold track in
              ground (
                arith,
                lookup-insert key j estimated (erase evicted t.tracked),
                lookup-erase evicted j t.tracked,
              )))
      | inr less ↦
          rw less
            (stays (λ j n found. ground (arith, least_first m evicted rest peeked j n found)) refl)
    ]

    -- In a tracker with its invariant that is full, `record` of a key that is not tracked: either no
    -- tracked key has a smaller count than the estimate, and the tracked keys stay, or a tracked key
    -- whose count is the least and smaller than the estimate gives its place to the new one.
    pub record_estimated-Contests :
        lookup key t.tracked ≡ none
        → t.k ≤ length t.tracked
        → Contests (record_estimated t key estimated)
    unfolding record_estimated
    record_estimated-Contests absent full = rw absent (
        unfold record_found in
        rw (full_test full) (replace-Contests (peek_min t.tracked t.heap) refl))
      where
        full_test : t.k ≤ length t.tracked → ltb (length t.tracked) t.k ≡ false
        full_test le = ground arith
