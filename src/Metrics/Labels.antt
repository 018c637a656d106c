-- ===== src/Metrics/Labels.antt =====
-- The values of labels, which are written between quotes.
use mathlib.Core.List.{append_assoc}
use lite_store.Base.{
  ℕ, ◌≡◌, refl, arith, Bool, true, false, Bool-cases, inl, inr, Option, none, some, [], ◌∷◌, ◌++◌,
  ◌==◌, if◌then◌else◌,
}
use lite_store.Base.Text.{Text, text}
use lite_store.Metrics.Rendering.{replace, escape_label_value}

-- The character that a backslash and this character stand for in the value of a label.
unfoldable pub unescaped : ℕ → ℕ
unescaped c = if c == b'n' then 10 else c

abbrev with_char : ℕ → Option (Text × Text) → Option (Text × Text)
with_char c none = none
with_char c (some (value, rest)) = some (c ∷ value, rest)

-- A reader of the exposition format, after the opening quote of a value, and told whether it has just
-- read a backslash: the value, and what follows the closing quote. It takes no line feed in a value.
unfoldable pub read_value : Bool → Text → Option (Text × Text)
unfolding unescaped
read_value escaped [] = none
read_value true (c ∷ s) = with_char (unescaped c) (read_value false s)
read_value false (c ∷ s) =
    let after_escape = read_value true s in
    let after_plain = read_value false s in
    if c == 34
    then some ([], s)
    else if c == 10
    then none
    else if c == 92
    then after_escape
    else with_char c after_plain

-- what one character becomes
abbrev escaped_char : ℕ → Text
escaped_char c =
    if c == 92
    then text "\\\\"
    else if c == 34
    then text "\\\""
    else if c == 10
    then text "\\n"
    else c ∷ []

escape-cons :
    (c : ℕ) (s : Text) → escape_label_value (c ∷ s) ≡ escaped_char c ++ escape_label_value s
unfolding escape_label_value replace
escape-cons c s = elim (Bool-cases (c == 92)) [
  | inl e ↦ rw e refl
  | inr e ↦ rw e (elim (Bool-cases (c == 34)) [
    | inl q ↦ rw q refl
    | inr q ↦ rw q (elim (Bool-cases (c == 10)) [ inl l ↦ rw l refl | inr l ↦ rw l refl ])
  ])
]

read_escaped :
    (c : ℕ) (s : Text) → read_value false (escaped_char c ++ s) ≡ with_char c (read_value false s)
unfolding read_value unescaped
read_escaped c s = ground arith

-- The value of a label is read back from what stands between the quotes, whatever characters it has:
-- a reader that undoes the escapes, and refuses a line feed, stops at the closing quote with that
-- value.
pub read_value-escape :
    (value rest : Text)
    → read_value false (escape_label_value value ++ 34 ∷ rest) ≡ some (value, rest)
unfolding read_value escape_label_value
read_value-escape [] rest = refl
read_value-escape (c ∷ value) rest =
    rw
      (
        escape-cons c value,
        append_assoc (escaped_char c) (escape_label_value value) (34 ∷ rest),
        read_escaped c (escape_label_value value ++ 34 ∷ rest),
        read_value-escape value rest,
      )
      refl
