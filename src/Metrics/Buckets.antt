-- ===== src/Metrics/Buckets.antt =====
-- What one more duration does to the cumulative counts of the buckets.
use mathlib.Core.Logic.{if_pos, if_neg}
use lite_store.Base.{
  inl, inr, leb→le, Bool-cases, ℕ, ◌+◌, ◌≤◌, ◌<◌, ◌≡◌, ◌≢◌, ◌∙◌, sym, refl, ap, arith, List, [],
  ◌∷◌, leb, if◌then◌else◌, or_else, All,
}
use lite_store.Base.Text.{Text, text_key}
use lite_store.Base.Dict.{Dict, lookup, insert, lookup-insert}
use lite_store.Clock.{Time}
use lite_store.Metrics.Rendering.{cumulate}
use lite_store.Metrics.{bucket_key, count_of, count_up, count_of-count_up, count_bucket}

abbrev Above : Time → List Time → Type 0
Above b buckets = All (λ c. b < c) buckets

abbrev pub IsIncreasing : List Time → Type 0
IsIncreasing [] = Unit
IsIncreasing (b ∷ buckets) = Above b buckets × IsIncreasing buckets

-- one more at the buckets that the duration is in
unfoldable pub bump : Time → List (Time × ℕ) → List (Time × ℕ)
bump d [] = []
bump d ((b, n) ∷ counts) = (b, if leb d b then n + 1 else n) ∷ bump d counts

count_of_other :
    (b b' : Time) (c : Dict Time ℕ) → b < b' → count_of b' (count_up b 1 c) ≡ count_of b' c
count_of_other b b' c lt = ground (arith, count_of-count_up b b' 1 c)

count_of_lower :
    (b b' : Time) (c : Dict Time ℕ) → b < b' → count_of b (count_up b' 1 c) ≡ count_of b c
count_of_lower b b' c lt = ground (arith, count_of-count_up b' b 1 c)

cumulate_below :
    (b : Time) (c : Dict Time ℕ) (acc : ℕ) (bs : List Time)
    → Above b bs
    → cumulate acc bs (count_up b 1 c) ≡ cumulate acc bs c
unfolding cumulate count_up
cumulate_below b c acc [] above = refl
cumulate_below b c acc (b' ∷ bs) above =
    let same = count_of_other b b' c above.0 in
    rw (same, cumulate_below b c (acc + count_of b' c) bs above.1) refl

cumulate_suc :
    (b d : Time) (c : Dict Time ℕ) (acc acc' : ℕ) (bs : List Time)
    → d ≤ b
    → Above b bs
    → acc' ≡ acc + 1
    → cumulate acc' bs c ≡ bump d (cumulate acc bs c)
unfolding cumulate bump
cumulate_suc b d c acc acc' [] le above more = refl
cumulate_suc b d c acc acc' (b' ∷ bs) le above more =
    let sum : acc' + count_of b' c ≡ acc + count_of b' c + 1 = omega (arith, more) in
    ground (
      arith,
      above.0,
      sum,
      cumulate_suc b d c (acc + count_of b' c) (acc' + count_of b' c) bs le above.1 sum,
    )

count_bucket_below :
    (b d : Time) (c : Dict Time ℕ) (bs : List Time)
    → Above b bs
    → count_of b (count_bucket bs d c) ≡ count_of b c
unfolding count_bucket count_up
count_bucket_below b d c [] above = refl
count_bucket_below b d c (b' ∷ bs) above = elim (Bool-cases (leb d b')) [
  | inl within ↦ rw within (count_of_lower b b' c above.0)
  | inr over ↦ rw over (count_bucket_below b d c bs above.1)
]

cumulate-count_bucket :
    (d : Time) (c : Dict Time ℕ) (acc : ℕ) (bs : List Time)
    → IsIncreasing bs
    → cumulate acc bs (count_bucket bs d c) ≡ bump d (cumulate acc bs c)
unfolding cumulate count_bucket bump
cumulate-count_bucket d c acc [] inc = refl
cumulate-count_bucket d c acc (b ∷ bs) inc = elim (Bool-cases (leb d b)) [
  | inl within ↦
      let one : count_of b (count_up b 1 c) ≡ count_of b c + 1 =
        ground (arith, count_of-count_up b b 1 c) in
      rw
        (
          within,
          cumulate_below b c (acc + count_of b (count_up b 1 c)) bs inc.0,
          cumulate_suc b d c (acc + count_of b c) (acc + count_of b (count_up b 1 c)) bs
              (leb→le d b within) inc.0 (omega (arith, one)),
        )
        (ap (λ n. (b, n) ∷ bump d (cumulate (acc + count_of b c) bs c)) (omega (arith, one)))
  | inr over ↦
      rw
        (
          over,
          count_bucket_below b d c bs inc.0,
          cumulate-count_bucket d c (acc + count_of b c) bs inc.1,
        )
        refl
]

module _ (bs : List Time) (inc : IsIncreasing bs) (d : Time) (name command_name : Text)
    (counts : Dict Text (Dict Time ℕ)) where
  abbrev old : Dict Time ℕ
  old = or_else (lookup command_name counts) []

  pub counted_step :
      (before after : List (Time × ℕ))
      → cumulate 0 bs (or_else (lookup name counts) []) ≡ before
      → (command_name ≡ name → after ≡ bump d before)
      → (command_name ≢ name → after ≡ before)
      → cumulate 0 bs
          (or_else (lookup name (insert command_name (count_bucket bs d old) counts)) [])
        ≡ after
  counted_step before after was same other = elim (text_key.decide command_name name) [
    | yes e ↦
        rw (lookup-insert command_name name (count_bucket bs d old) counts, if_pos _ e)
          (cumulate-count_bucket d old 0 bs inc
            ∙ ap (λ k. bump d (cumulate 0 bs (or_else (lookup k counts) []))) e
            ∙ ap (bump d) was
            ∙ sym (same e))
    | no differ ↦
        rw (lookup-insert command_name name (count_bucket bs d old) counts, if_neg _ differ)
          (was ∙ sym (other differ))
  ]
