-- ===== src/CountMin/Bounds.antt =====
-- What an estimate of the sketch says of the number of times that a key was counted.
use native.Mathlib.Nat.{mod-lt}
use lite_store.Base.{
  take, ℕ, zero, suc, ◌+◌, ◌≤◌, ◌<◌, ◌≡◌, refl, arith, some, List, [], ◌∷◌, ◌==◌, ap, sym, subst,
  ◌∙◌, length-set, length-replicate, get_or-replicate, get_or-set, get_or, set, replicate, length,
  ite, if◌then◌else◌,
}
use lite_store.Base.Text.{Text, text_key}
use lite_store.Router.{Hashing, from_bytes}
use lite_store.CountMin.{
  CountMinSketch, make_sketch, column, increment_rows, increment, estimate_rows, estimate, least,
}

-- how often a key is in a list
unfoldable pub occurrences : Text → List Text → ℕ
occurrences key [] = 0
occurrences key (k ∷ ks) =
    let rest = occurrences key ks in ite (text_key.decide k key) (rest + 1) rest

module _ (h : Hashing) (width : ℕ) where
  -- the sketch after these keys were counted, the last one first
  unfoldable pub counted : ℕ → List Text → CountMinSketch
  counted depth [] = make_sketch width depth
  counted depth (key ∷ keys) = increment h (counted depth keys) key

  -- A row has its width, no count too low, and none above the number of keys.
  record IsRow (keys : List Text) (seed : ℕ) (row : List ℕ) : Type 0 where
    sized : length row ≡ width
    enough : (key : Text) → occurrences key keys ≤ get_or row (column h width key seed) 0
    bounded : (col : ℕ) → get_or row col 0 ≤ length keys

  abbrev AreRows : List Text → ℕ → List (List ℕ) → Type 0
  AreRows keys seed [] = Unit {0}
  AreRows keys seed (row ∷ rows) = IsRow keys seed row × AreRows keys (suc seed) rows

  module _ (positive : 0 < width) where
    column-lt : (key : Text) (seed : ℕ) → column h width key seed < width
    unfolding column
    column-lt key seed = mod-lt (from_bytes (take 4 (h.sha256 (seed ∷ h.encode key)))) positive

    module _ (key : Text) (keys : List Text) (seed : ℕ) (row : List ℕ)
        (r : IsRow keys seed row) where
      abbrev col : ℕ
      col = column h width key seed

      abbrev grown : List ℕ
      grown = set row col (get_or row col 0 + 1)

      cell :
          (j : ℕ) → get_or grown j 0 ≡ (if col == j then get_or row col 0 + 1 else get_or row j 0)
      cell j = get_or-set row col j (get_or row col 0 + 1) 0 (rw r.sized (column-lt key seed))

      more :
          (k : Text) (d : Dec (key ≡ k))
          → ite d (occurrences k keys + 1) (occurrences k keys)
            ≤ get_or grown (column h width k seed) 0
      more k (yes same) =
          let at = column h width k seed in
          ground (arith, cell at, r.enough k, ap (λ x. column h width x seed) same)
      more k (no other) = let at = column h width k seed in ground (arith, cell at, r.enough k)

      grown-IsRow : IsRow (key ∷ keys) seed grown
      unfolding occurrences
      grown-IsRow = record {
        sized = length-set row col (get_or row col 0 + 1) ∙ r.sized;
        enough = λ k. more k (text_key.decide key k);
        bounded = λ j. ground (arith, cell j, r.bounded j, r.bounded col);
      }

    increment-AreRows :
        (key : Text) (keys : List Text) (seed : ℕ) (rows : List (List ℕ))
        → AreRows keys seed rows
        → AreRows (key ∷ keys) seed (increment_rows h width key seed rows)
    unfolding increment_rows
    increment-AreRows key keys seed [] r = tt
    increment-AreRows key keys seed (row ∷ rows) r =
        (grown-IsRow key keys seed row r.0, increment-AreRows key keys (suc seed) rows r.1)

    new-AreRows : (depth seed : ℕ) → AreRows [] seed (replicate depth (replicate width 0))
    new-AreRows zero seed = tt
    new-AreRows (suc depth) seed = (
      record {
        sized = length-replicate width 0;
        enough = λ key. unfold occurrences in omega arith;
        bounded = λ col. omega (arith, get_or-replicate {A = ℕ} width col 0);
      },
      new-AreRows depth (suc seed),
    )

    counted-AreRows :
        (depth : ℕ) (keys : List Text)
        → AreRows keys 0 (counted depth keys).table × ((counted depth keys).width ≡ width)
    unfolding counted increment
    counted-AreRows depth [] = (new-AreRows depth 0, refl)
    counted-AreRows depth (key ∷ keys) =
        let before = counted-AreRows depth keys in
        (
          subst (λ w. AreRows (key ∷ keys) 0 (increment_rows h w key 0 (counted depth keys).table))
              (sym before.1) (increment-AreRows key keys 0 (counted depth keys).table before.0),
          before.1,
        )

    length-increment_rows :
        (w : ℕ) (key : Text) (seed : ℕ) (rows : List (List ℕ))
        → length (increment_rows h w key seed rows) ≡ length rows
    unfolding increment_rows
    length-increment_rows w key seed [] = refl
    length-increment_rows w key seed (row ∷ rows) =
        ap suc (length-increment_rows w key (suc seed) rows)

    length-counted : (depth : ℕ) (keys : List Text) → length (counted depth keys).table ≡ depth
    unfolding counted increment
    length-counted depth [] = length-replicate depth (replicate width 0)
    length-counted depth (key ∷ keys) =
        length-increment_rows (counted depth keys).width key 0 (counted depth keys).table
        ∙ length-counted depth keys

    -- What the estimate of a table of such rows is between.
    estimate_rows-between :
        (keys : List Text) (key : Text) (seed : ℕ) (row : List ℕ) (rows : List (List ℕ))
        → AreRows keys seed (row ∷ rows)
        → (n : ℕ) × (estimate_rows h width key seed (row ∷ rows) ≡ some n)
          × (occurrences key keys ≤ n)
          × (n ≤ length keys)
    estimate_rows-between keys key seed row [] r = (
      get_or row (column h width key seed) 0,
      unfold estimate_rows in refl,
      r.0.enough key,
      r.0.bounded (column h width key seed),
    )
    estimate_rows-between keys key seed row (row' ∷ rows) r =
        let rest = estimate_rows-between keys key (suc seed) row' rows r.1 in
        between row (row' ∷ rows) rest.0 rest.1 r.0 (rest.2, rest.3)
      where
        between :
            (row : List ℕ) (rows : List (List ℕ)) (m : ℕ)
            → estimate_rows h width key (suc seed) rows ≡ some m
            → IsRow keys seed row
            → (occurrences key keys ≤ m) × (m ≤ length keys)
            → (n : ℕ) × (estimate_rows h width key seed (row ∷ rows) ≡ some n)
              × (occurrences key keys ≤ n)
              × (n ≤ length keys)
        between row rows m rest r bounds =
            let at = get_or row (column h width key seed) 0 in
            let enough = r.enough key in
            let bounded = r.bounded (column h width key seed) in
            (least at (some m), unfold estimate_rows in ground arith, ground arith, ground arith)

    -- A sketch with positive width and depth, after any keys were counted: `estimate` returns a number
    -- for every key, which is not below the times that the key was counted and not above the number of
    -- all keys counted.
    pub estimate-between :
        (depth : ℕ) (keys : List Text) (key : Text)
        → 0 < depth
        → (n : ℕ) × (estimate h (counted depth keys) key ≡ some n)
          × (occurrences key keys ≤ n)
          × (n ≤ length keys)
    unfolding estimate
    estimate-between depth keys key some_rows =
        let counts = counted-AreRows depth keys in
        subst
          (λ w.
            (n : ℕ) × (estimate_rows h w key 0 (counted depth keys).table ≡ some n)
            × (occurrences key keys ≤ n)
            × (n ≤ length keys))
          (sym counts.1)
          (go (counted depth keys).table (rw (length-counted depth keys) some_rows) counts.0)
      where
        go :
            (rows : List (List ℕ))
            → 0 < length rows
            → AreRows keys 0 rows
            → (n : ℕ) × (estimate_rows h width key 0 rows ≡ some n)
              × (occurrences key keys ≤ n)
              × (n ≤ length keys)
        go [] absent r = absurd (omega arith)
        go (row ∷ rows) there r = estimate_rows-between keys key 0 row rows r
