-- ===== src/CountMin/TopK/Counts.antt =====
-- What the tracker tells after any sequence of keys.
use lite_store.Base.{
  ℕ, ◌≤◌, ◌<◌, ◌≡◌, ◌∙◌, refl, ap, arith, Option, none, some, List, [], ◌∷◌, length, inl, inr,
}
use lite_store.Base.Text.{Text, text_key}
use lite_store.Base.Dict.{lookup, lookup-nil}
use lite_store.Router.{Hashing}
use lite_store.CountMin.{increment}
use lite_store.CountMin.Bounds.{counted, occurrences, estimate-between}
use lite_store.CountMin.TopK.{
  TopKTracker, make_tracker, peek_min, track, compact_heap, record_again, replace_min, record_found,
  record_estimated, record_key, record_counted,
}
use lite_store.CountMin.TopK.Tracking.{IsTracking, recorded, record_estimated-IsTracking}
use lite_store.CountMin.TopK.Eviction.{estimated-Comes}

module _ (t : TopKTracker) (key : Text) (estimated : ℕ) where
  found_kept :
      (o : Option ℕ)
      → ((record_found t key estimated o).k ≡ t.k)
        × ((record_found t key estimated o).sketch ≡ t.sketch)
  unfolding record_found record_again track compact_heap
  found_kept (some n) = ground arith
  found_kept none = ground (arith, replace_kept (peek_min t.tracked t.heap))
    where
      replace_kept :
          (heap : List (ℕ × Text))
          → ((replace_min t key estimated heap).k ≡ t.k)
            × ((replace_min t key estimated heap).sketch ≡ t.sketch)
      replace_kept [] = unfold replace_min in (refl, refl)
      replace_kept (e ∷ rest) = unfold replace_min in ground arith

module _ (h : Hashing) (k width depth : ℕ) where
  -- What the tracker is after these keys: each count that it has is not below the times that its key
  -- was recorded, nor above the number of all keys recorded.
  pub record Tracks (keys : List Text) (t : TopKTracker) : Type 0 where
    pub tracking : IsTracking t
    pub room : t.k ≡ k
    pub sketch : t.sketch ≡ counted h width depth keys
    pub counts :
        (key : Text) (n : ℕ)
        → lookup key t.tracked ≡ some n
        → (occurrences key keys ≤ n) × (n ≤ length keys)

  pub made-Tracks : Tracks [] (make_tracker k width depth)
  unfolding counted
  made-Tracks = record {
    tracking = record {
      distinct = tt;
      capacity = omega arith;
      ascending = tt;
      sized = omega arith;
      entered = λ key n found. absurd (cc (found, lookup-nil {V = ℕ} key));
    };
    room = refl;
    sketch = refl;
    counts = λ key n found. absurd (cc (found, lookup-nil {V = ℕ} key));
  }

  module _ (keys : List Text) (key : Text) (t : TopKTracker) (r : Tracks keys t) (wide : 0 < width)
      (deep : 0 < depth) where
    abbrev counting : TopKTracker
    counting = record t { sketch = counted h width depth (key ∷ keys) }

    count_bounds :
        (n : ℕ)
        → occurrences key (key ∷ keys) ≤ n
        → n ≤ length (key ∷ keys)
        → (j : Text) (m : ℕ) → lookup j (record_estimated counting key n).tracked ≡ some m
        → (occurrences j (key ∷ keys) ≤ m) × (m ≤ length (key ∷ keys))
    count_bounds n low high j m found = elim (estimated-Comes counting key n j m found) [
      | inl (same, new) ↦ (
        ground (arith, low, new, ap (λ i. occurrences i (key ∷ keys)) same),
        omega (arith, high, new),
      )
      | inr (other, old) ↦
          let (few, many) = r.counts j m old in
          (unfold occurrences in ground (arith, few), omega (arith, many))
    ]

    estimated-Tracks :
        (n : ℕ)
        → occurrences key (key ∷ keys) ≤ n
        → n ≤ length (key ∷ keys)
        → Tracks (key ∷ keys) (record_estimated counting key n)
    unfolding record_estimated
    estimated-Tracks n low high =
        let kept = found_kept counting key n (lookup key t.tracked) in
        record {
          tracking = record_estimated-IsTracking counting key n (record {
            distinct = r.tracking.distinct;
            capacity = r.tracking.capacity;
            ascending = r.tracking.ascending;
            sized = r.tracking.sized;
            entered = r.tracking.entered;
          });
          room = kept.0 ∙ r.room;
          sketch = kept.1;
          counts = λ j m found. count_bounds n low high j m found;
        }

    same_sketch : increment h t.sketch key ≡ counted h width depth (key ∷ keys)
    unfolding counted
    same_sketch = ap (λ s. increment h s key) r.sketch

    pub record_key-Tracks :
        (t' : TopKTracker) × (record_key h t key ≡ some t') × Tracks (key ∷ keys) t'
    unfolding record_key record_counted
    record_key-Tracks =
        let (n, estimated, low, high) = estimate-between h width wide depth (key ∷ keys) key deep in
        (
          record_estimated counting key n,
          rw (same_sketch, estimated) refl,
          estimated-Tracks n low high,
        )

  -- Whatever keys are recorded by a new tracker with a sketch that has rows and columns: `record` never
  -- raises, at most `k` keys are tracked, none twice, each with an entry on the heap, which has at most
  -- four times `k` entries, and the count of each tracked key is not below the times that it was
  -- recorded, nor above the number of all keys recorded.
  pub recorded-Tracks :
      0 < width
      → 0 < depth
      → (keys : List Text)
      → (t : TopKTracker) × (recorded h (make_tracker k width depth) keys ≡ some t) × Tracks keys t
  unfolding recorded
  recorded-Tracks wide deep [] = (make_tracker k width depth, refl, made-Tracks)
  recorded-Tracks wide deep (key ∷ keys) =
      let before = recorded-Tracks wide deep keys in
      let step = record_key-Tracks keys key before.0 before.2 wide deep in
      (step.0, rw before.1 step.1, step.2)
