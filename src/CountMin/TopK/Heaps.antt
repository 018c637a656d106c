-- ===== src/CountMin/TopK/Heaps.antt =====
-- The heap of the tracker: what it holds, its order, and its length.
use lite_store.Base.{
  ℕ, suc, ◌≤◌, ◌≡◌, refl, arith, Bool, true, false, some, List, [], ◌∷◌, length, ◌==◌,
  if◌then◌else◌, ite, All, Bool-cases, inl, inr,
}
use lite_store.Base.Text.{Text, text_key}
use lite_store.Base.Dict.{Dict, lookup}
use lite_store.CountMin.TopK.{entry_leb, heappush, heapify, is_current, peek_min}

-- the heap has an entry with this key and count
unfoldable pub held : Text → ℕ → List (ℕ × Text) → Bool
held key n [] = false
held key n ((m, other) ∷ heap) =
    let rest = held key n heap in
    ite (text_key.decide other key) (if m == n then true else rest) rest

-- the counts do not go down from the front
abbrev pub IsAscending : List (ℕ × Text) → Type 0
IsAscending [] = Unit
IsAscending (e ∷ heap) = All (λ (f : ℕ × Text). e.0 ≤ f.0) heap × IsAscending heap

pub held-heappush :
    (key other : Text) (n m : ℕ) (heap : List (ℕ × Text))
    → held key n (heappush (m, other) heap)
      ≡ ite (text_key.decide other key) (if m == n then true else held key n heap) (held key n heap)
unfolding held heappush
held-heappush key other n m [] = refl
held-heappush key other n m ((l, third) ∷ heap) = ground (arith, held-heappush key other n m heap)

pub held-cons :
    (key other : Text) (n m : ℕ) (heap : List (ℕ × Text))
    → held key n ((m, other) ∷ heap)
      ≡ ite (text_key.decide other key) (if m == n then true else held key n heap) (held key n heap)
unfolding held
held-cons key other n m heap = refl

pub length-heappush :
    (e : ℕ × Text) (heap : List (ℕ × Text)) → length (heappush e heap) ≡ suc (length heap)
unfolding heappush
length-heappush e [] = refl
length-heappush e (f ∷ heap) = ground (arith, length-heappush e heap)

All-heappush :
    (P : ℕ × Text → Type 0) (e : ℕ × Text) (heap : List (ℕ × Text))
    → P e
    → All P heap
    → All P (heappush e heap)
unfolding heappush
All-heappush P e [] p h = (p, tt)
All-heappush P e (f ∷ heap) p h = elim (Bool-cases (entry_leb e f)) [
  | inl le ↦ rw le (p, h)
  | inr gt ↦ rw gt (h.0, All-heappush P e heap p h.1)
]

All-le_trans :
    {n m : ℕ} (heap : List (ℕ × Text))
    → n ≤ m
    → All (λ (f : ℕ × Text). m ≤ f.0) heap
    → All (λ (f : ℕ × Text). n ≤ f.0) heap
All-le_trans [] le h = tt
All-le_trans (e ∷ heap) le h = (omega (arith, h.0), All-le_trans heap le h.1)

le_of_entry_leb : (e f : ℕ × Text) → entry_leb e f ≡ true → e.0 ≤ f.0
unfolding entry_leb
le_of_entry_leb (n, key) (m, other) h = ground arith

ge_of_entry_leb : (e f : ℕ × Text) → entry_leb e f ≡ false → f.0 ≤ e.0
unfolding entry_leb
ge_of_entry_leb (n, key) (m, other) h = ground arith

pub heappush-IsAscending :
    (e : ℕ × Text) (heap : List (ℕ × Text)) → IsAscending heap → IsAscending (heappush e heap)
unfolding heappush
heappush-IsAscending e [] h = (tt, tt)
heappush-IsAscending e (f ∷ heap) h = elim (Bool-cases (entry_leb e f)) [
  | inl le ↦ let below = le_of_entry_leb e f le in rw le ((below, All-le_trans heap below h.0), h)
  | inr gt ↦ rw gt (
    All-heappush (λ g. f.0 ≤ g.0) e heap (ge_of_entry_leb e f gt) h.0,
    heappush-IsAscending e heap h.1,
  )
]

pub heapify-IsAscending : (tracked : Dict Text ℕ) → IsAscending (heapify tracked)
unfolding heapify
heapify-IsAscending [] = tt
heapify-IsAscending ((key, count) ∷ tracked) =
    heappush-IsAscending (count, key) (heapify tracked) (heapify-IsAscending tracked)

pub length-heapify : (tracked : Dict Text ℕ) → length (heapify tracked) ≡ length tracked
unfolding heapify
length-heapify [] = refl
length-heapify ((key, count) ∷ tracked) =
    omega (arith, length-heappush (count, key) (heapify tracked), length-heapify tracked)

pub held-heapify :
    (key : Text) (n : ℕ) (tracked : Dict Text ℕ)
    → lookup key tracked ≡ some n
    → held key n (heapify tracked) ≡ true
unfolding heapify lookup
held-heapify key n [] h = cc
held-heapify key n ((other, m) ∷ tracked) h =
    ground (arith, held-heappush key other n m (heapify tracked), held-heapify key n tracked)

module _ (tracked : Dict Text ℕ) where
  pub peek_min-IsAscending :
      (heap : List (ℕ × Text)) → IsAscending heap → IsAscending (peek_min tracked heap)
  unfolding peek_min
  peek_min-IsAscending [] h = tt
  peek_min-IsAscending (e ∷ heap) h = elim (Bool-cases (is_current tracked e)) [
    | inl now ↦ rw now h
    | inr stale ↦ rw stale (peek_min-IsAscending heap h.1)
  ]

  pub length-peek_min : (heap : List (ℕ × Text)) → length (peek_min tracked heap) ≤ length heap
  unfolding peek_min
  length-peek_min [] = omega arith
  length-peek_min (e ∷ heap) = ground (arith, length-peek_min heap)

  -- Only stale entries are dropped.
  pub held-peek_min :
      (key : Text) (n : ℕ) (heap : List (ℕ × Text))
      → lookup key tracked ≡ some n
      → held key n heap ≡ true
      → held key n (peek_min tracked heap) ≡ true
  unfolding peek_min held
  held-peek_min key n [] now h = h
  held-peek_min key n ((m, other) ∷ heap) now h = ground (arith, held-peek_min key n heap)

  -- The first entry that is left is current.
  pub peek_min-current :
      (heap : List (ℕ × Text)) (e : ℕ × Text) (rest : List (ℕ × Text))
      → peek_min tracked heap ≡ e ∷ rest
      → is_current tracked e ≡ true
  unfolding peek_min
  peek_min-current [] e rest h = cc
  peek_min-current (f ∷ heap) e rest h = elim (Bool-cases (is_current tracked f)) [
    | inl now ↦ ground arith
    | inr stale ↦ peek_min-current heap e rest (ground arith)
  ]

pub lookup_of_current :
    (tracked : Dict Text ℕ) (m : ℕ) (key : Text)
    → is_current tracked (m, key) ≡ true
    → lookup key tracked ≡ some m
unfolding is_current
lookup_of_current tracked m key now = ground arith

le_of_held :
    (key : Text) (n m : ℕ) (heap : List (ℕ × Text))
    → All (λ (f : ℕ × Text). m ≤ f.0) heap
    → held key n heap ≡ true
    → m ≤ n
unfolding held
le_of_held key n m [] h there = cc
le_of_held key n m ((l, other) ∷ heap) h there = ground (arith, le_of_held key n m heap)

-- An entry of an ascending heap is not below its first one.
pub first_least :
    (key : Text) (n m : ℕ) (other : Text) (heap : List (ℕ × Text))
    → IsAscending ((m, other) ∷ heap)
    → held key n ((m, other) ∷ heap) ≡ true
    → m ≤ n
unfolding held
first_least key n m other heap h there = ground (arith, le_of_held key n m heap)
