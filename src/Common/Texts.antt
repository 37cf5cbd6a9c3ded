-- ===== src/Common/Texts.antt =====
-- The characters of a text, and what Python's `str` methods do with them.
use Prim.Native.Nat.{ℕ}
use Prim.Native.Char.{code}
use Prim.Native.String.{String}
use mathlib.Core.Path.{◌≡◌, refl}
use mathlib.Core.Logic.{◌↔◌}
use mathlib.Core.Bool.{Bool, true, false, ◌&&◌, ◌||◌}
use mathlib.Core.Option.{Option, none, some}
use mathlib.Core.List.{List, [], ◌∷◌}
use native.Mathlib.Omega.{arith}
use incidentlens.Common.Tests.{◌==◌, if◌then◌else◌}
use incidentlens.Common.Lists.{any}

-- A text as its code points.
abbrev pub Text : Type 0
Text = List ℕ

-- The code points of a text. `String` has its own `[]` and `∷`.
abbrev pub codes : String → Text
codes String.[] = []
codes (String.◌∷◌ c s) = code c ∷ codes s

abbrev pub starts_with : Text → Text → Bool
starts_with [] text = true
starts_with (c ∷ needle) [] = false
starts_with (c ∷ needle) (d ∷ text) = (c == d) && starts_with needle text

abbrev pub occurs_in : Text → Text → Bool
occurs_in needle [] = starts_with needle []
occurs_in needle (d ∷ text) = starts_with needle (d ∷ text) || occurs_in needle text

-- `needle in text`.
abbrev pub contains : String → String → Bool
contains text needle = occurs_in (codes needle) (codes text)

-- `a == b`.
unfoldable pub same_text : Text → Text → Bool
same_text [] [] = true
same_text [] (d ∷ b) = false
same_text (c ∷ a) [] = false
same_text (c ∷ a) (d ∷ b) = (c == d) && same_text a b

pub same_text_iff : (a b : Text) → (same_text a b ≡ true) ↔ (a ≡ b)
unfolding same_text
same_text_iff [] [] = (λ _. refl, λ _. refl)
same_text_iff [] (d ∷ b) = (λ e. absurd (cc e), λ e. absurd (cc e))
same_text_iff (c ∷ a) [] = (λ e. absurd (cc e), λ e. absurd (cc e))
same_text_iff (c ∷ a) (d ∷ b) =
    (λ e. ground (arith, same_text_iff a b), λ e. ground (arith, same_text_iff a b))

-- `text == literal`.
unfoldable pub is : Text → String → Bool
unfolding same_text
is text literal = same_text text (codes literal)

pub is_iff : (t : Text) (s : String) → (is t s ≡ true) ↔ (t ≡ codes s)
unfolding is
is_iff t s = same_text_iff t (codes s)

pub is_codes : (s : String) → is (codes s) s ≡ true
is_codes s = (is_iff (codes s) s).1 refl

-- `text in texts`.
abbrev pub is_in : Text → List Text → Bool
is_in text = any (same_text text)

-- `text[len(prefix):]`, where the text starts with the prefix.
abbrev pub strip_prefix : Text → Text → Option Text
strip_prefix [] text = some text
strip_prefix (c ∷ needle) [] = none
strip_prefix (c ∷ needle) (d ∷ text) =
    let rest = strip_prefix needle text in if c == d then rest else none

abbrev cons_first : ℕ → List Text → List Text
cons_first d [] = (d ∷ []) ∷ []
cons_first d (w ∷ words) = (d ∷ w) ∷ words

-- `text.split(c)`.
abbrev pub split_on : ℕ → Text → List Text
split_on c [] = [] ∷ []
split_on c (d ∷ text) =
    let rest = split_on c text in if d == c then [] ∷ rest else cons_first d rest
