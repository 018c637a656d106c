-- ===== src/Base/Text.antt =====
-- Python's `str` as a list of code points: white space, `strip`, `split`, and decimal numbers.
use Prim.Native.Nat.{ℕ, zero, suc, ◌+◌, ◌/◌, ◌%◌}
use Prim.Native.Char.{code}
use Prim.Native.String.{String}
use mathlib.Core.Bool.{Bool, true, false, ◌&&◌, ◌||◌}
use mathlib.Core.List.{List, [], ◌∷◌, reverse}
use native.Mathlib.Decide.{ℕ_discrete}
use lite_store.Base.Tests.{ltb, leb, ◌==◌, if◌then◌else◌}
use lite_store.Base.Dict.{Key}
use lite_store.Base.Int.{ℤ, pos, negsuc}

abbrev pub Text : Type 0
Text = List ℕ

-- A text literal.
abbrev pub text : String → Text
text String.[] = []
text (String.◌∷◌ c s) = code c ∷ text s

unfoldable pub Text-discrete : Discrete Text
unfolding ℕ_discrete
Text-discrete = hlevel ℕ_discrete

instance abbrev pub text_key : Key Text
text_key = record { decide = Text-discrete }

-- The characters for which `str.isspace` holds.
unfoldable pub is_space : ℕ → Bool
is_space c =
    (leb 9 c && leb c 13)
    || (leb 28 c && leb c 32)
    || c == 0x85
    || c == 0xa0
    || c == 0x1680
    || (leb 0x2000 c && leb c 0x200a)
    || c == 0x2028
    || c == 0x2029
    || c == 0x202f
    || c == 0x205f
    || c == 0x3000

-- s.lstrip()
unfoldable pub lstrip : Text → Text
unfolding is_space
lstrip [] = []
lstrip (c ∷ s) = if is_space c then lstrip s else c ∷ s

-- s.rstrip()
unfoldable pub rstrip : Text → Text
unfolding lstrip
rstrip s = reverse (lstrip (reverse s))

-- s.strip()
unfoldable pub strip : Text → Text
unfolding rstrip
strip s = rstrip (lstrip s)

-- The characters before the first white space, and what follows them.
unfoldable pub token : Text → Text × Text
unfolding is_space
token [] = ([], [])
token (c ∷ s) = let (word, rest) = token s in if is_space c then ([], c ∷ s) else (c ∷ word, rest)

-- A list of one text, or of none where that is empty.
abbrev pub unless_empty : Text → List Text
unless_empty [] = []
unless_empty (c ∷ s) = (c ∷ s) ∷ []

abbrev pub prepend : Text × List Text → List Text
prepend ([], words) = words
prepend (c ∷ s, words) = (c ∷ s) ∷ words

-- s.split(maxsplit=n)
unfoldable pub split_max : ℕ → Text → List Text
unfolding strip token
split_max zero s = unless_empty (strip s)
split_max (suc n) s = let (word, rest) = token (lstrip s) in prepend (word, split_max n rest)

-- The loop of `split`: the word that is being read, and the words after it.
unfoldable pub words_from : Text → Text × List Text
unfolding is_space
words_from [] = ([], [])
words_from (c ∷ s) =
    let (word, words) = words_from s in
    if is_space c then ([], prepend (word, words)) else (c ∷ word, words)

-- s.split()
unfoldable pub split : Text → List Text
unfolding words_from
split s = prepend (words_from s)

-- The digits of a number before `rest`, on fuel.
digits_before : ℕ → ℕ → Text → Text
digits_before zero n rest = rest
digits_before (suc fuel) n rest =
    let more = digits_before fuel (n / 10) ((48 + n % 10) ∷ rest) in
    if ltb n 10 then (48 + n) ∷ rest else more

-- str(n)
unfoldable pub decimal : ℕ → Text
unfolding digits_before
decimal n = digits_before (suc n) n []

unfoldable pub decimal_ℤ : ℤ → Text
unfolding decimal
decimal_ℤ (pos n) = decimal n
decimal_ℤ (negsuc n) = b'-' ∷ decimal (suc n)

-- s <= t, by code points
unfoldable pub text_leb : Text → Text → Bool
text_leb [] t = true
text_leb (c ∷ s) [] = false
text_leb (c ∷ s) (d ∷ t) =
    let rest = text_leb s t in if ltb c d then true else if ltb d c then false else rest
