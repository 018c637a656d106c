-- ===== src/Builtins.antt =====
-- What the program calls of Python on texts, and that is too large to write out here: the case
-- mapping of Unicode, the syntax of `int`, and the glob patterns of `fnmatch`.
use lite_store.Base.{ℕ, Bool, Option, List, ℤ, ◌≡◌, [], ◌∷◌, ◌-◌, ◌<◌, leb, ◌&&◌, if◌then◌else◌}
use lite_store.Base.Text.{Text}
use lite_store.Base.Dict.{Dict}

pub record Builtins : Type 0 where
  -- what `str.upper` makes of one character
  pub upper : ℕ → List ℕ
  -- int(text), with `none` for its ValueError
  pub int_of : Text → Option ℤ
  -- fnmatch.fnmatch(name, pattern)
  pub fnmatch : Text → Text → Bool
  -- str(d), for a dictionary of texts
  pub str_of_dict : Dict Text Text → Text

-- The upper case of an ASCII character.
abbrev pub upper_ascii : ℕ → ℕ
upper_ascii c = if leb b'a' c && leb c b'z' then c - 32 else c

pub record IsPython (b : Builtins) : Type 0 where
  pub upper_of_ascii : (c : ℕ) → c < 128 → b.upper c ≡ upper_ascii c ∷ []
