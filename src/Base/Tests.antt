-- ===== src/Base/Tests.antt =====
-- Boolean tests on the native numbers, the conditional, and results of code that may raise.
use Prim.Native.Nat.{ℕ, ◌≤◌, ◌<◌, compare, Ordering}
use mathlib.Core.Path.{◌≡◌, refl, ap}
use mathlib.Core.Logic.{◌⊎◌, inl, inr, ite}
use mathlib.Core.Bool.{Bool, true, false}
use mathlib.Core.Option.{Option, none, some}
use native.Mathlib.Omega.{arith}

abbrev pub ltb : ℕ → ℕ → Bool
ltb a b = elim (compare a b) [ Ordering.lt ↦ true | _ ↦ false ]

abbrev pub leb : ℕ → ℕ → Bool
leb a b = elim (compare a b) [ Ordering.gt ↦ false | _ ↦ true ]

infix 50 ◌==◌
abbrev pub ◌==◌ : ℕ → ℕ → Bool
a == b = elim (compare a b) [ Ordering.eq ↦ true | _ ↦ false ]

infix 1 if◌then◌else◌
abbrev pub if◌then◌else◌ {ℓ} : {A : Type ℓ} → Bool → A → A → A
if true then x else y = x
if false then x else y = y

pub leb→le : (a b : ℕ) → leb a b ≡ true → a ≤ b
leb→le a b h = ground arith

pub lt→ltb : (a b : ℕ) → a < b → ltb a b ≡ true
lt→ltb a b h = ground arith

pub if_true {ℓ} : {A : Type ℓ} (t : Bool) (x y : A) → t ≡ true → (if t then x else y) ≡ x
if_true true x y h = refl
if_true false x y h = cc

pub if_false {ℓ} : {A : Type ℓ} (t : Bool) (x y : A) → t ≡ false → (if t then x else y) ≡ y
if_false true x y h = cc
if_false false x y h = refl

-- What holds of both branches holds of a conditional.
pub if-elim {ℓ ℓ₁} :
    {A : Type ℓ} (P : A → Type ℓ₁) (t : Bool) {x y : A} → P x → P y → P (if t then x else y)
if-elim P true h h' = h
if-elim P false h h' = h'

pub Bool-cases : (b : Bool) → (b ≡ true) ⊎ (b ≡ false)
Bool-cases true = inl refl
Bool-cases false = inr refl

pub Option-cases {ℓ} : {A : Type ℓ} (o : Option A) → (o ≡ none) ⊎ ((a : A) × (o ≡ some a))
Option-cases none = inl refl
Option-cases (some a) = inr (a, refl)

-- the value, or the default
abbrev pub or_else {ℓ} : {A : Type ℓ} → Option A → A → A
or_else none d = d
or_else (some a) d = a

-- A call that returns or raises, with the exceptions of `E`.
pub data Result {ℓ} (E A : Type ℓ) : Type ℓ where
  ok : A → Result E A
  raised : E → Result E A

pub ok_injective {ℓ} : {E A : Type ℓ} {a b : A} → ◌≡◌ {A = Result E A} (ok a) (ok b) → a ≡ b
ok_injective {a = a} e = ap (λ r. elim r [ ok x ↦ x | raised _ ↦ a ]) e

infixl 5 ◌>>=◌ ◌>>◌
abbrev pub ◌>>=◌ {ℓ} : {E A B : Type ℓ} → Result E A → (A → Result E B) → Result E B
ok a >>= f = f a
raised e >>= f = raised e

abbrev pub ◌>>◌ : {E B : Type 0} → Result E (Unit {0}) → Result E B → Result E B
m >> k = m >>= λ _. k

-- What holds of both branches holds of a test.
pub ite-elim {ℓ ℓ₁ ℓ₂} :
    {A : Type ℓ} {Q : Type ℓ₁} (P : A → Type ℓ₂) (d : Dec Q) {x y : A} → P x → P y → P (ite d x y)
ite-elim P (yes _) h h' = h
ite-elim P (no _) h h' = h'

-- What relates both branches of one test to those of another relates the two tests.
pub ite-elim₂ {ℓ ℓ₁ ℓ₂ ℓ₃} :
    {A : Type ℓ} {B : Type ℓ₁} {Q : Type ℓ₂} (R : A → B → Type ℓ₃) (d : Dec Q) {x y : A} {u v : B}
    → R x u
    → R y v
    → R (ite d x y) (ite d u v)
ite-elim₂ R (yes _) h h' = h
ite-elim₂ R (no _) h h' = h'
