-- ===== src/CountMin.antt =====
-- The count-min sketch of src/countmin.py. The rows of its table are a list, and a row is numbered by
-- its place.
pub mod Bounds
pub mod TopK
use lite_store.Base.{
  take, ℕ, zero, suc, ◌+◌, ◌%◌, Option, none, some, List, [], ◌∷◌, get_or, set, replicate, leb,
  if◌then◌else◌,
}
use lite_store.Base.Text.{Text}
use lite_store.Router.{Hashing, from_bytes}

pub record CountMinSketch : Type 0 where
  pub width : ℕ
  pub table : List (List ℕ)

-- CountMinSketch(width, depth)
abbrev pub make_sketch : ℕ → ℕ → CountMinSketch
make_sketch width depth = record { width = width; table = replicate depth (replicate width 0) }

-- the smaller of a count and the minimum of the rows after it
abbrev pub least : ℕ → Option ℕ → ℕ
least n none = n
least n (some m) = if leb n m then n else m

module _ (h : Hashing) where
  -- _hash, for a table of this width; for a row below 256, so that bytes([row]) does not raise
  unfoldable pub column : ℕ → Text → ℕ → ℕ
  column width key seed = from_bytes (take 4 (h.sha256 (seed ∷ h.encode key))) % width

  -- the loop of `increment`, from the row with number `seed` on
  unfoldable pub increment_rows : ℕ → Text → ℕ → List (List ℕ) → List (List ℕ)
  increment_rows width key seed [] = []
  increment_rows width key seed (row ∷ rows) =
      let col = column width key seed in
      set row col (get_or row col 0 + 1) ∷ increment_rows width key (suc seed) rows

  unfoldable pub increment : CountMinSketch → Text → CountMinSketch
  unfolding increment_rows
  increment s key = record s { table = increment_rows s.width key 0 s.table }

  -- the minimum of `estimate`, from the row with number `seed` on; `none` for its ValueError
  unfoldable pub estimate_rows : ℕ → Text → ℕ → List (List ℕ) → Option ℕ
  estimate_rows width key seed [] = none
  estimate_rows width key seed (row ∷ rows) =
      some (least (get_or row (column width key seed) 0) (estimate_rows width key (suc seed) rows))

  unfoldable pub estimate : CountMinSketch → Text → Option ℕ
  unfolding estimate_rows
  estimate s key = estimate_rows s.width key 0 s.table
