-- ===== src/Base/Dict.antt =====
-- Python's `dict` and `set` over the keys of a decidable equality: entries in order of insertion.
-- An assignment to a present key keeps its place; the laws are stated for every list of entries.
use mathlib.Core.Path.{◌≡◌, ◌∙◌, ap, refl, sym}
use mathlib.Core.Bool.{Bool, true, false}
use mathlib.Core.Logic.{ite, if_pos, if_neg, ◌⊎◌, inl, inr}
use mathlib.Core.List.{List, [], ◌∷◌}
use mathlib.Core.Option.{Option, none, some, some-injective}
use native.Mathlib.Omega.{arith}
use Prim.Native.Nat.{suc}
use lite_store.Base.Lists.{All, length}
use lite_store.Base.Tests.{ite-elim}

pub record Key {ℓ} (K : Type ℓ) : Type ℓ where
  pub decide : Discrete K

abbrev pub Dict {ℓ} : Type ℓ → Type ℓ → Type ℓ
Dict K V = List (K × V)

module _ {ℓ} {K V : Type ℓ} ⦃key : Key K⦄ where
  -- d.get(k)
  unfoldable pub lookup : K → Dict K V → Option V
  lookup k [] = none
  lookup k ((j, v) ∷ d) = ite (key.decide j k) (some v) (lookup k d)

  -- d[k] = v
  unfoldable pub insert : K → V → Dict K V → Dict K V
  insert k v [] = (k, v) ∷ []
  insert k v ((j, w) ∷ d) = ite (key.decide j k) ((j, v) ∷ d) ((j, w) ∷ insert k v d)

  -- d.pop(k, None), del d[k]
  unfoldable pub erase : K → Dict K V → Dict K V
  erase k [] = []
  erase k ((j, w) ∷ d) = let rest = erase k d in ite (key.decide j k) rest ((j, w) ∷ rest)

  pub lookup-insert :
      (k j : K) (v : V) (d : Dict K V)
      → lookup j (insert k v d) ≡ ite (key.decide k j) (some v) (lookup j d)
  unfolding lookup insert
  lookup-insert k j v [] = refl
  lookup-insert k j v ((i, w) ∷ d) = ground (arith, lookup-insert k j v d)

  pub lookup-erase :
      (k j : K) (d : Dict K V) → lookup j (erase k d) ≡ ite (key.decide k j) none (lookup j d)
  unfolding lookup erase
  lookup-erase k j [] = ground arith
  lookup-erase k j ((i, w) ∷ d) = ground (arith, lookup-erase k j d)

  -- The key has an entry.
  abbrev pub IsIn : K → Dict K V → Type ℓ
  IsIn k d = (v : V) × (lookup k d ≡ some v)

  pub lookup-insert_self : (k : K) (v : V) (d : Dict K V) → lookup k (insert k v d) ≡ some v
  lookup-insert_self k v d = lookup-insert k k v d ∙ if_pos (key.decide k k) refl _ _

  pub insert-IsIn : (k j : K) (v : V) (d : Dict K V) → IsIn j d → IsIn j (insert k v d)
  insert-IsIn k j v d (u, found) = elim (key.decide k j) [
    | yes e ↦ (v, lookup-insert k j v d ∙ if_pos (key.decide k j) e _ _)
    | no e ↦ (u, lookup-insert k j v d ∙ if_neg (key.decide k j) e _ _ ∙ found)
  ]

  pub insert-cases :
      (k j : K) (v w : V) (d : Dict K V)
      → lookup j (insert k v d) ≡ some w
      → (v ≡ w) ⊎ (lookup j d ≡ some w)
  insert-cases k j v w d found = elim (key.decide k j) [
    | yes e ↦
        inl
          (some-injective _ _ (sym (lookup-insert k j v d ∙ if_pos (key.decide k j) e _ _) ∙ found))
    | no e ↦ inr (sym (lookup-insert k j v d ∙ if_neg (key.decide k j) e _ _) ∙ found)
  ]

  pub lookup-nil : (k : K) → ◌≡◌ {A = Option V} (lookup k []) none
  unfolding lookup
  lookup-nil k = refl

  -- No key has two entries.
  abbrev pub IsDistinct : Dict K V → Type ℓ
  IsDistinct [] = Unit
  IsDistinct ((k, v) ∷ d) = (lookup k d ≡ none) × IsDistinct d

  pub insert-IsDistinct : (k : K) (v : V) (d : Dict K V) → IsDistinct d → IsDistinct (insert k v d)
  unfolding insert
  insert-IsDistinct k v [] h = (lookup-nil k, tt)
  insert-IsDistinct k v ((j, w) ∷ d) h = elim (key.decide j k) [
    | yes same ↦ rw (if_pos _ same, insert) h
    | no other ↦
        rw (if_neg _ other, insert)
          (ground (arith, lookup-insert k j v d), insert-IsDistinct k v d h.1)
  ]

  -- What holds of the keys, and of one more, holds of the keys after its insertion.
  pub All-insert :
      (P : K → Type ℓ) (k : K) (v : V) (d : Dict K V)
      → P k
      → All (λ p. P p.0) d
      → All (λ p. P p.0) (insert k v d)
  unfolding insert
  All-insert P k v [] now h = (now, tt)
  All-insert P k v ((j, w) ∷ d) now h =
      ite-elim (All (λ p. P p.0)) (key.decide j k) (h.0, h.1) (h.0, All-insert P k v d now h.1)

  pub erase-IsDistinct : (k : K) (d : Dict K V) → IsDistinct d → IsDistinct (erase k d)
  unfolding erase
  erase-IsDistinct k [] h = tt
  erase-IsDistinct k ((j, w) ∷ d) h = elim (key.decide j k) [
    | yes same ↦ rw (if_pos _ same, erase) (erase-IsDistinct k d h.1)
    | no other ↦
        rw (if_neg _ other, erase) (ground (arith, lookup-erase k j d), erase-IsDistinct k d h.1)
  ]

  pub length-insert_new :
      (k : K) (v : V) (d : Dict K V) → lookup k d ≡ none → length (insert k v d) ≡ suc (length d)
  unfolding lookup insert
  length-insert_new k v [] h = refl
  length-insert_new k v ((j, w) ∷ d) h = ground (arith, length-insert_new k v d)

  pub length-insert_old :
      (k : K) (v w : V) (d : Dict K V) → lookup k d ≡ some w → length (insert k v d) ≡ length d
  unfolding lookup insert
  length-insert_old k v w [] h = cc
  length-insert_old k v w ((j, u) ∷ d) h = ground (arith, length-insert_old k v w d)

  length-erase_absent : (k : K) (d : Dict K V) → lookup k d ≡ none → length (erase k d) ≡ length d
  unfolding lookup erase
  length-erase_absent k [] h = refl
  length-erase_absent k ((j, w) ∷ d) h = ground (arith, length-erase_absent k d)

  pub length-erase_old :
      (k : K) (v : V) (d : Dict K V)
      → IsDistinct d
      → lookup k d ≡ some v
      → suc (length (erase k d)) ≡ length d
  unfolding lookup erase
  length-erase_old k v [] h found = cc
  length-erase_old k v ((j, w) ∷ d) h found = elim (key.decide j k) [
    | yes same ↦ ground (arith, length-erase_absent k d, ap (λ i. lookup i d) same, h.0)
    | no other ↦ ground (arith, length-erase_old k v d h.1)
  ]

  -- What holds of every lookup holds of every entry.
  pub All-of_lookup :
      (P : K → V → Type ℓ) (d : Dict K V)
      → IsDistinct d
      → ((k : K) (v : V) → lookup k d ≡ some v → P k v)
      → All (λ p. P p.0 p.1) d
  unfolding lookup
  All-of_lookup P [] h f = tt
  All-of_lookup P ((k, v) ∷ d) h f = (
    f k v (if_pos (key.decide k k) refl _ _),
    All-of_lookup P d h.1 λ j w found. f j w (other j w found (key.decide k j)),
  )
    where
      other : (j : K) (w : V) → lookup j d ≡ some w → Dec (k ≡ j) → lookup j ((k, v) ∷ d) ≡ some w
      other j w found (yes same) = absurd (cc (h.0, found, ap (λ i. lookup i d) same))
      other j w found (no differ) = if_neg (key.decide k j) differ _ _ ∙ found

module _ {ℓ} {K V W : Type ℓ} ⦃key : Key K⦄ (g : V → W) where
  unfoldable pub map_values : Dict K V → Dict K W
  map_values [] = []
  map_values ((k, v) ∷ d) = (k, g v) ∷ map_values d

  pub lookup-map_values :
      (k : K) (v : V) (d : Dict K V) → lookup k d ≡ some v → lookup k (map_values d) ≡ some (g v)
  unfolding lookup map_values
  lookup-map_values k v [] found = cc
  lookup-map_values k v ((j, w) ∷ d) found = ground (arith, lookup-map_values k v d)

  pub lookup-map_values_from :
      (k : K) (w : W) (d : Dict K V)
      → lookup k (map_values d) ≡ some w
      → (v : V) × (lookup k d ≡ some v) × (g v ≡ w)
  unfolding lookup map_values
  lookup-map_values_from k w [] found = absurd cc
  lookup-map_values_from k w ((j, v) ∷ d) found = elim (key.decide j k) [
    | yes same ↦ (
      v,
      if_pos (key.decide j k) same _ _,
      some-injective _ _ (sym (if_pos (key.decide j k) same _ _) ∙ found),
    )
    | no other ↦
        let (u, e, mapped) =
          lookup-map_values_from k w d (sym (if_neg (key.decide j k) other _ _) ∙ found) in
        (u, if_neg (key.decide j k) other _ _ ∙ e, mapped)
  ]

module _ {K : Type 0} ⦃key : Key K⦄ where
  -- k in s
  unfoldable pub has : K → List K → Bool
  has k [] = false
  has k (j ∷ s) = ite (key.decide j k) true (has k s)

  -- s.add(k)
  unfoldable pub add : K → List K → List K
  add k [] = k ∷ []
  add k (j ∷ s) = ite (key.decide j k) (j ∷ s) (j ∷ add k s)

  -- s.discard(k)
  unfoldable pub discard : K → List K → List K
  discard k [] = []
  discard k (j ∷ s) = let rest = discard k s in ite (key.decide j k) rest (j ∷ rest)

  pub has-nil : (k : K) → has k [] ≡ false
  unfolding has
  has-nil k = refl

  pub has-add : (k j : K) (s : List K) → has j (add k s) ≡ ite (key.decide k j) true (has j s)
  unfolding has add
  has-add k j [] = refl
  has-add k j (i ∷ s) = ground (arith, has-add k j s)

  pub has-discard :
      (k j : K) (s : List K) → has j (discard k s) ≡ ite (key.decide k j) false (has j s)
  unfolding has discard
  has-discard k j [] = ground arith
  has-discard k j (i ∷ s) = ground (arith, has-discard k j s)
