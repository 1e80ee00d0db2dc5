-- ===== src/Prelude/Text.antt =====
-- Whole texts: equality, emptiness, membership in a list of texts, and `split`.
use Prim.Native.Nat.{ℕ, zero, suc}
use Prim.Native.Char.{Char, code}
use Prim.Native.String.{String}
use mathlib.Core.Bool.{Bool, true, false, not, ◌&&◌, ◌||◌}
use mathlib.Core.Path.{◌≡◌, refl}
use native.Mathlib.Omega.{arith}
use mathlib.Core.List.{List, [], ◌∷◌}
use text.Mathlib.Text.{◌==◌ as text_eq}
use cnp_v1_starter_kit.Prelude.Tests.{◌==◌, leb, if◌then◌else◌}

abbrev pub str_eq : String → String → Bool
str_eq = text_eq

-- The truth value of a Python string.
abbrev pub is_blank : String → Bool
is_blank String.[] = true
is_blank (String.◌∷◌ c s) = false

abbrev pub one_of : String → List String → Bool
one_of s [] = false
one_of s (t ∷ ts) = str_eq s t || one_of s ts

-- Puts a character in front of the first piece.
abbrev pub glue : Char → List String → List String
glue c [] = (String.◌∷◌ c String.[]) ∷ []
glue c (p ∷ ps) = (String.◌∷◌ c p) ∷ ps

-- `s.split(sep)` for a separator of one character.
abbrev pub split : ℕ → String → List String
split sep String.[] = String.[] ∷ []
split sep (String.◌∷◌ c s) =
    let rest = split sep s in if code c == sep then String.[] ∷ rest else glue c rest

-- `s.split(sep, n)`: at most n cuts.
abbrev pub split_at_most : ℕ → ℕ → String → List String
split_at_most sep zero s = s ∷ []
split_at_most sep (suc n) String.[] = String.[] ∷ []
split_at_most sep (suc n) (String.◌∷◌ c s) =
    let cut = split_at_most sep n s in
    let rest = split_at_most sep (suc n) s in if code c == sep then String.[] ∷ cut else glue c rest

-- `s.strip(…)` cuts the characters of a class off both ends.
abbrev pub lstrip : (ℕ → Bool) → String → String
lstrip p String.[] = String.[]
lstrip p (String.◌∷◌ c s) = if p (code c) then lstrip p s else String.◌∷◌ c s

abbrev pub rstrip : (ℕ → Bool) → String → String
rstrip p String.[] = String.[]
rstrip p (String.◌∷◌ c s) =
    let rest = rstrip p s in if p (code c) && is_blank rest then String.[] else String.◌∷◌ c rest

abbrev pub strip : (ℕ → Bool) → String → String
strip p s = rstrip p (lstrip p s)

-- What `s.strip()` cuts.
abbrev pub is_space : ℕ → Bool
is_space c =
    (leb 9 c && leb c 13)
    || (leb 28 c && leb c 32)
    || c == 0x85
    || c == 0xa0
    || c == 0x1680
    || (leb 0x2000 c && leb c 0x200a)
    || c == 0x2028
    || c == 0x2029
    || c == 0x202f
    || c == 0x205f
    || c == 0x3000

abbrev pub all_char : (ℕ → Bool) → String → Bool
all_char p String.[] = true
all_char p (String.◌∷◌ c s) = p (code c) && all_char p s

-- `s.endswith(t)`.
abbrev pub ends_with : String → String → Bool
ends_with String.[] t = str_eq String.[] t
ends_with (String.◌∷◌ c s) t = str_eq (String.◌∷◌ c s) t || ends_with s t

-- No character of the text is the separator.
abbrev pub lacks : ℕ → String → Bool
lacks sep = all_char (λ c. not (c == sep))

-- The concatenation of an f-string.
infixr 67 ◌+++◌
abbrev pub ◌+++◌ : String → String → String
String.[] +++ t = t
String.◌∷◌ c s +++ t = String.◌∷◌ c (s +++ t)

-- A text without the separator is one piece.
pub split-lacks : (sep : ℕ) (s : String) → lacks sep s ≡ true → split sep s ≡ s ∷ []
split-lacks sep String.[] h = refl
split-lacks sep (String.◌∷◌ c s) h = ground (arith, split-lacks sep s)
