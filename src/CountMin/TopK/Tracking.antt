-- ===== src/CountMin/TopK/Tracking.antt =====
-- What the tracker keeps, whatever keys are recorded and whatever their estimates are.
use lite_store.Base.{
  subst, ℕ, ◌+◌, ◌*◌, ◌≤◌, ◌<◌, ◌≡◌, ◌∙◌, refl, ap, arith, true, false, Option, none, some, List,
  [], ◌∷◌, length, ltb, Bool-cases, inl, inr,
}
use lite_store.Base.Text.{Text, text_key}
use lite_store.Base.Dict.{
  Dict, lookup, insert, erase, IsDistinct, lookup-insert, lookup-erase, insert-IsDistinct,
  erase-IsDistinct, length-insert_new, length-insert_old, length-erase_old,
}
use lite_store.Router.{Hashing}
use lite_store.CountMin.TopK.{
  TopKTracker, peek_min, track, compact_heap, record_again, replace_min, record_estimated,
  record_found, record_key,
}
use lite_store.CountMin.TopK.Heaps.{
  held, IsAscending, held-heappush, length-heappush, heappush-IsAscending, heapify-IsAscending,
  length-heapify, held-heapify, peek_min-IsAscending, length-peek_min, held-peek_min,
  peek_min-current, held-cons, lookup_of_current,
}

-- The tracked keys are no more than k, each has its entry in the heap, and the heap has at most 3·k
-- other ones.
pub record IsTracking (t : TopKTracker) : Type 0 where
  pub distinct : IsDistinct t.tracked
  pub capacity : length t.tracked ≤ t.k
  pub ascending : IsAscending t.heap
  pub sized : length t.heap ≤ 3 * t.k + length t.tracked
  pub entered : (key : Text) (n : ℕ) → lookup key t.tracked ≡ some n → held key n t.heap ≡ true

entered-track :
    (t : TopKTracker) (key : Text) (estimated : ℕ)
    → ((k : Text) (n : ℕ) → lookup k t.tracked ≡ some n → held k n t.heap ≡ true)
    → (k : Text) (n : ℕ) → lookup k (track t key estimated).tracked ≡ some n
    → held k n (track t key estimated).heap ≡ true
unfolding track
entered-track t key estimated h k n found =
    ground (
      arith,
      h k n,
      lookup-insert key k estimated t.tracked,
      held-heappush k key n estimated t.heap,
    )

module _ (t : TopKTracker) (key : Text) (estimated : ℕ) (v : IsTracking t) where
  track_new-IsTracking :
      lookup key t.tracked ≡ none → length t.tracked < t.k → IsTracking (track t key estimated)
  unfolding track
  track_new-IsTracking absent room =
      let more = length-insert_new key estimated t.tracked absent in
      let pushed = length-heappush (estimated, key) t.heap in
      let sized = v.sized in
      record {
        distinct = insert-IsDistinct key estimated t.tracked v.distinct;
        capacity = omega (arith, more);
        ascending = heappush-IsAscending (estimated, key) t.heap v.ascending;
        sized = omega (arith, more, pushed);
        entered = λ k n. entered-track t key estimated v.entered k n;
      }

  record_again-IsTracking :
      (n : ℕ) → lookup key t.tracked ≡ some n → IsTracking (record_again t key estimated)
  unfolding record_again
  record_again-IsTracking n there =
      elim (Bool-cases (ltb (t.k * 3) (length (track t key estimated).heap))) [
        | inl large ↦ rw large compacted
        | inr small ↦ rw small (
            unfold track in
            record {
              distinct = distinct;
              capacity = omega (arith, same, v.capacity);
              ascending = heappush-IsAscending (estimated, key) t.heap v.ascending;
              sized = omega (arith, fits small);
              entered = λ k n. entered-track t key estimated v.entered k n;
            })
      ]
    where
      fits :
          ltb (t.k * 3) (length (track t key estimated).heap) ≡ false
          → length (track t key estimated).heap ≤ t.k * 3
      fits small = ground arith

      same : length (insert key estimated t.tracked) ≡ length t.tracked
      same = length-insert_old key estimated n t.tracked there

      distinct : IsDistinct (insert key estimated t.tracked)
      distinct = insert-IsDistinct key estimated t.tracked v.distinct

      compacted : IsTracking (compact_heap (track t key estimated))
      compacted =
          unfold track compact_heap in
          record {
            distinct = distinct;
            capacity = omega (arith, same, v.capacity);
            ascending = heapify-IsAscending (insert key estimated t.tracked);
            sized = omega (arith, length-heapify (insert key estimated t.tracked));
            entered = λ k n. held-heapify k n (insert key estimated t.tracked);
          }

  -- what the heap that `_peek_min` leaves keeps
  kept :
      (heap : List (ℕ × Text))
      → peek_min t.tracked t.heap ≡ heap
      → IsAscending heap
        × (length heap ≤ 3 * t.k + length t.tracked)
        × ((k : Text) (n : ℕ) → lookup k t.tracked ≡ some n → held k n heap ≡ true)
  kept heap peeked = (
    subst IsAscending peeked (peek_min-IsAscending t.tracked t.heap v.ascending),
    omega (arith, ap (length {A = ℕ × Text}) peeked, length-peek_min t.tracked t.heap, v.sized),
    λ k n found.
        subst (λ h. held k n h ≡ true) peeked
          (held-peek_min t.tracked k n t.heap found (v.entered k n found)),
  )

  -- The entry that `_peek_min` returns is of a tracked key, so `del` finds it.
  pub first_tracked :
      (m : ℕ) (evicted : Text) (rest : List (ℕ × Text))
      → peek_min t.tracked t.heap ≡ (m, evicted) ∷ rest
      → lookup evicted t.tracked ≡ some m
  first_tracked m evicted rest peeked =
      lookup_of_current t.tracked m evicted
        (peek_min-current t.tracked t.heap (m, evicted) rest peeked)

  replace_min-IsTracking :
      (heap : List (ℕ × Text))
      → peek_min t.tracked t.heap ≡ heap
      → lookup key t.tracked ≡ none
      → IsTracking (replace_min t key estimated heap)
  unfolding replace_min
  replace_min-IsTracking [] peeked absent =
      let k = kept [] peeked in
      record {
        distinct = v.distinct;
        capacity = v.capacity;
        ascending = k.0;
        sized = k.1;
        entered = k.2;
      }
  replace_min-IsTracking ((m, evicted) ∷ rest) peeked absent =
      let k = kept ((m, evicted) ∷ rest) peeked in
      elim (Bool-cases (ltb m estimated)) [
        | inl more ↦ rw more replaced
        | inr less ↦ rw less (record {
          distinct = v.distinct;
          capacity = v.capacity;
          ascending = k.0;
          sized = k.1;
          entered = k.2;
        })
      ]
    where
      left : Dict Text ℕ
      left = erase evicted t.tracked

      k :
          IsAscending ((m, evicted) ∷ rest)
          × (length ((m, evicted) ∷ rest) ≤ 3 * t.k + length t.tracked)
          × ((j : Text) (n : ℕ)
              → lookup j t.tracked ≡ some n
              → held j n ((m, evicted) ∷ rest) ≡ true)
      k = kept ((m, evicted) ∷ rest) peeked

      same : length (insert key estimated left) ≡ length t.tracked
      same =
          length-insert_new key estimated left
            (ground (arith, lookup-erase evicted key t.tracked, absent))
          ∙ length-erase_old evicted m t.tracked v.distinct (first_tracked m evicted rest peeked)

      others : (j : Text) (n : ℕ) → lookup j left ≡ some n → held j n rest ≡ true
      others j n found =
          ground (arith, lookup-erase evicted j t.tracked, k.2 j n, held-cons j evicted n m rest)

      replaced :
          IsTracking
            (track (record t { heap = rest; tracked = erase evicted t.tracked }) key estimated)
      replaced =
          unfold track in
          record {
            distinct =
                insert-IsDistinct key estimated left
                  (erase-IsDistinct evicted t.tracked v.distinct);
            capacity = omega (arith, same, v.capacity);
            ascending = heappush-IsAscending (estimated, key) rest k.0.1;
            sized = omega (arith, same, length-heappush (estimated, key) rest, k.1);
            entered = λ j n.
                entered-track (record t { heap = rest; tracked = left }) key estimated others j n;
          }

  record_found-IsTracking :
      (o : Option ℕ) → lookup key t.tracked ≡ o → IsTracking (record_found t key estimated o)
  unfolding record_found
  record_found-IsTracking (some n) there = record_again-IsTracking n there
  record_found-IsTracking none absent = elim (Bool-cases (ltb (length t.tracked) t.k)) [
    | inl room ↦ rw room (track_new-IsTracking absent (ground arith))
    | inr full ↦ rw full (replace_min-IsTracking (peek_min t.tracked t.heap) refl absent)
  ]

  -- Recording a key keeps the invariant, whatever its estimate is.
  pub record_estimated-IsTracking : IsTracking (record_estimated t key estimated)
  unfolding record_estimated
  record_estimated-IsTracking = record_found-IsTracking (lookup key t.tracked) refl

-- The tracker after these keys were recorded, the last one first; `none` once `record` has raised.
unfoldable pub recorded : Hashing → TopKTracker → List Text → Option TopKTracker
recorded h t [] = some t
recorded h t (key ∷ keys) = elim (recorded h t keys) [ none ↦ none | some t' ↦ record_key h t' key ]
