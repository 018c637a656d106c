-- ===== src/CountMin/TopK/Ranking.antt =====
-- The order in which `top_k` of src/countmin.py lists the tracked keys.
use lite_store.Base.{
  if-elim, ℕ, ◌≤◌, ◌≡◌, ◌∙◌, refl, ap, arith, List, [], ◌∷◌, leb, ◌==◌, if◌then◌else◌, All, leb→le,
  Bool-cases, inl, inr,
}
use lite_store.Base.Text.{Text}
use lite_store.CountMin.TopK.{TopKTracker, insert_by_count, sort_by_count, top_k}

-- the items with this count, in their order
unfoldable pub with_count : ℕ → List (Text × ℕ) → List (Text × ℕ)
with_count n [] = []
with_count n ((key, count) ∷ items) =
    let rest = with_count n items in if count == n then (key, count) ∷ rest else rest

-- No item has a smaller count than a later one.
abbrev pub IsDescending : List (Text × ℕ) → Type 0
IsDescending [] = Unit
IsDescending ((key, count) ∷ items) = All (λ e. e.1 ≤ count) items × IsDescending items

-- The items of one list in descending order of their counts, those with one count in their order.
pub record IsRanking (sorted items : List (Text × ℕ)) : Type 0 where
  pub descending : IsDescending sorted
  pub stable : (n : ℕ) → with_count n sorted ≡ with_count n items

module _ (key : Text) (count : ℕ) where
  with_count-insert :
      (n : ℕ) (items : List (Text × ℕ))
      → with_count n (insert_by_count (key, count) items) ≡ with_count n ((key, count) ∷ items)
  unfolding with_count insert_by_count
  with_count-insert n [] = refl
  with_count-insert n ((other, m) ∷ items) = ground (arith, with_count-insert n items)

  insert-All :
      (bound : ℕ) (items : List (Text × ℕ))
      → count ≤ bound
      → All (λ e. e.1 ≤ bound) items
      → All (λ e. e.1 ≤ bound) (insert_by_count (key, count) items)
  unfolding insert_by_count
  insert-All bound [] here all = (here, tt)
  insert-All bound ((other, m) ∷ items) here all =
      if-elim (All (λ e. e.1 ≤ bound)) (leb m count) (here, all)
        (all.0, insert-All bound items here all.1)

  below_all :
      (m : ℕ) (items : List (Text × ℕ))
      → m ≤ count
      → All (λ e. e.1 ≤ m) items
      → All (λ e. e.1 ≤ count) items
  below_all m [] le all = tt
  below_all m (e ∷ items) le all = (omega (arith, all.0), below_all m items le all.1)

  insert-IsDescending :
      (items : List (Text × ℕ))
      → IsDescending items
      → IsDescending (insert_by_count (key, count) items)
  unfolding insert_by_count
  insert-IsDescending [] h = (tt, tt)
  insert-IsDescending ((other, m) ∷ items) h =
      let later = insert-IsDescending items h.1 in
      elim (Bool-cases (leb m count)) [
        | inl e ↦ let le = leb→le m count e in rw e ((le, below_all m items le h.0), h)
        | inr e ↦ rw e (insert-All m items (ground (arith, e)) h.0, later)
      ]

sort-IsRanking : (items : List (Text × ℕ)) → IsRanking (sort_by_count items) items
unfolding sort_by_count with_count
sort-IsRanking [] = record { descending = tt; stable = λ n. refl }
sort-IsRanking ((key, count) ∷ items) =
    let before = sort-IsRanking items in
    record {
      descending = insert-IsDescending key count (sort_by_count items) before.descending;
      stable = λ n.
          with_count-insert key count n (sort_by_count items)
          ∙ ap (λ l. if count == n then (key, count) ∷ l else l) (before.stable n);
    }

-- `top_k` lists each tracked key with its count, once for each time that it is tracked, none with a
-- smaller count before one with a greater, and those with the same count in the order in which they
-- came to be tracked.
pub top_k-IsRanking : (t : TopKTracker) → IsRanking (top_k t) t.tracked
unfolding top_k
top_k-IsRanking t = sort-IsRanking t.tracked
