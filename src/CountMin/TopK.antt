-- ===== src/CountMin/TopK.antt =====
-- The tracker of frequent keys of src/countmin.py.
--
-- Its heap is the list of its entries in ascending order, of which `heapq` shows the length, the
-- first one, and what a push and a pop leave; the layout that `heapq` gives them is not modelled.
-- Entries are compared as Python compares the pairs of count and key.
pub mod Heaps
pub mod Ranking
pub mod Tracking
pub mod Eviction
pub mod Counts
use lite_store.Base.{
  ℕ, ◌+◌, ◌*◌, Bool, true, false, Option, none, some, List, [], ◌∷◌, length, leb, ltb, ◌==◌,
  if◌then◌else◌,
}
use lite_store.Base.Text.{Text, text_key, text_leb}
use lite_store.Base.Dict.{Dict, lookup, insert, erase}
use lite_store.Router.{Hashing}
use lite_store.CountMin.{CountMinSketch, make_sketch, increment, estimate}

-- a <= b for entries of the heap
unfoldable pub entry_leb : ℕ × Text → ℕ × Text → Bool
entry_leb (n, key) (m, other) =
    if ltb n m then true else if ltb m n then false else text_leb key other

-- heapq.heappush
unfoldable pub heappush : ℕ × Text → List (ℕ × Text) → List (ℕ × Text)
unfolding entry_leb
heappush e [] = e ∷ []
heappush e (f ∷ heap) = if entry_leb e f then e ∷ f ∷ heap else f ∷ heappush e heap

-- heapq.heapify of the entries (count, key) of a dictionary
unfoldable pub heapify : Dict Text ℕ → List (ℕ × Text)
unfolding heappush
heapify [] = []
heapify ((key, count) ∷ tracked) = heappush (count, key) (heapify tracked)

pub record TopKTracker : Type 0 where
  pub k : ℕ
  pub sketch : CountMinSketch
  pub heap : List (ℕ × Text)
  pub tracked : Dict Text ℕ

-- TopKTracker(k, sketch_width, sketch_depth)
abbrev pub make_tracker : ℕ → ℕ → ℕ → TopKTracker
make_tracker k sketch_width sketch_depth = record {
  k = k;
  sketch = make_sketch sketch_width sketch_depth;
  heap = [];
  tracked = [];
}

-- _HEAP_CLEANUP_RATIO
abbrev pub heap_cleanup_ratio : ℕ
heap_cleanup_ratio = 3

-- self._tracked.get(key) == count
unfoldable pub is_current : Dict Text ℕ → ℕ × Text → Bool
is_current tracked (count, key) = elim (lookup key tracked) [ none ↦ false | some n ↦ n == count ]

-- The heap as `_peek_min` leaves it; what it returns is the first entry of that.
unfoldable pub peek_min : Dict Text ℕ → List (ℕ × Text) → List (ℕ × Text)
unfolding is_current
peek_min tracked [] = []
peek_min tracked (e ∷ heap) =
    let rest = peek_min tracked heap in if is_current tracked e then e ∷ heap else rest

-- _compact_heap
unfoldable pub compact_heap : TopKTracker → TopKTracker
unfolding heapify
compact_heap t = record t { heap = heapify t.tracked }

-- self._tracked[key] = estimated and heapq.heappush(self._heap, (estimated, key))
unfoldable pub track : TopKTracker → Text → ℕ → TopKTracker
unfolding heappush
track t key estimated = record t {
  heap = heappush (estimated, key) t.heap;
  tracked = insert key estimated t.tracked;
}

-- the first `if` of `record`
unfoldable pub record_again : TopKTracker → Text → ℕ → TopKTracker
unfolding track compact_heap
record_again t key estimated =
    let t' = track t key estimated in
    if ltb (t.k * heap_cleanup_ratio) (length t'.heap) then compact_heap t' else t'

-- the end of `record`, on the heap that `_peek_min` left
unfoldable pub replace_min : TopKTracker → Text → ℕ → List (ℕ × Text) → TopKTracker
unfolding track
replace_min t key estimated [] = record t { heap = [] }
replace_min t key estimated ((least, evicted) ∷ rest) =
    if ltb least estimated
    then track (record t { heap = rest; tracked = erase evicted t.tracked }) key estimated
    else record t { heap = (least, evicted) ∷ rest }

-- `record` after its second line, by what `_tracked` has for the key
unfoldable pub record_found : TopKTracker → Text → ℕ → Option ℕ → TopKTracker
unfolding record_again replace_min
record_found t key estimated (some _) = record_again t key estimated
record_found t key estimated none =
    if ltb (length t.tracked) t.k
    then track t key estimated
    else replace_min t key estimated (peek_min t.tracked t.heap)

unfoldable pub record_estimated : TopKTracker → Text → ℕ → TopKTracker
unfolding record_found
record_estimated t key estimated = record_found t key estimated (lookup key t.tracked)

-- `record` after its second line, by the estimate; `none` for the ValueError of a sketch without rows
unfoldable pub record_counted : TopKTracker → Text → Option ℕ → Option TopKTracker
unfolding record_estimated
record_counted t key none = none
record_counted t key (some estimated) = some (record_estimated t key estimated)

unfoldable pub record_key : Hashing → TopKTracker → Text → Option TopKTracker
unfolding record_counted
record_key h t key =
    let sketch = increment h t.sketch key in
    record_counted (record t { sketch = sketch }) key (estimate h sketch key)

-- the place of an item in the sorted list: after the items with the same count, or more
unfoldable pub insert_by_count : Text × ℕ → List (Text × ℕ) → List (Text × ℕ)
insert_by_count e [] = e ∷ []
insert_by_count (key, count) ((other, n) ∷ items) =
    if leb n count
    then (key, count) ∷ (other, n) ∷ items
    else (other, n) ∷ insert_by_count (key, count) items

-- sorted(items, key=lambda item: item[1], reverse=True), which is stable
unfoldable pub sort_by_count : List (Text × ℕ) → List (Text × ℕ)
unfolding insert_by_count
sort_by_count [] = []
sort_by_count (e ∷ items) = insert_by_count e (sort_by_count items)

unfoldable pub top_k : TopKTracker → List (Text × ℕ)
unfolding sort_by_count
top_k t = sort_by_count t.tracked
