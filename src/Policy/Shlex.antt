-- ===== src/Policy/Shlex.antt =====
-- Python's `shlex.split`, which remote_ops/policy.py calls: POSIX rules, split at whitespace, no comments.
use incidentlens.Common.{
  ℕ, Bool, false, ◌&&◌, ◌||◌, not, Option, none, some, List, [], ◌∷◌, ◌++◌, ◌==◌, if◌then◌else◌,
  Text,
}

-- Between words; in a word; in quotes; after a backslash, in these quotes if there are any.
pub data Mode : Type 0 where
  space word : Mode
  quoted : ℕ → Mode
  escaped : Option ℕ → Mode

abbrev pub is_space : ℕ → Bool
is_space c = c == b' ' || c == b'\t' || c == b'\r' || c == b'\n'

abbrev pub is_quote : ℕ → Bool
is_quote c = c == b'\'' || c == b'"'

-- What a character does to the mode and to the word that is being read, and the word that it ends.
pub record Move : Type 0 where
  pub mode : Mode
  pub token : Text
  pub ended : Option Text

abbrev go : Mode → Text → Move
go m token = record { mode = m; token = token; ended = none }

-- After a backslash, back in the quotes or in the word.
abbrev resume : Option ℕ → Mode
resume none = word
resume (some q) = quoted q

-- In quotes the backslash stays, unless it stands before a backslash or the quote.
abbrev keeps_backslash : Option ℕ → ℕ → Bool
keeps_backslash none c = false
keeps_backslash (some q) c = not (c == b'\\') && not (c == q)

unfoldable pub move : Mode → Text → ℕ → Move
move space token c =
    if is_space c
    then go space []
    else if c == b'\\'
    then go (escaped none) []
    else if is_quote c
    then go (quoted c) []
    else go word (c ∷ [])
move word token c =
    if is_space c
    then record { mode = space; token = []; ended = some token }
    else if is_quote c
    then go (quoted c) token
    else if c == b'\\'
    then go (escaped none) token
    else go word (token ++ c ∷ [])
move (quoted q) token c =
    if c == q
    then go word token
    else if q == b'"' && c == b'\\'
    then go (escaped (some q)) token
    else go (quoted q) (token ++ c ∷ [])
move (escaped q) token c =
    if keeps_backslash q c
    then go (resume q) (token ++ b'\\' ∷ c ∷ [])
    else go (resume q) (token ++ c ∷ [])

abbrev pub with_word : Option Text → Option (List Text) → Option (List Text)
with_word none words = words
with_word (some w) none = none
with_word (some w) (some words) = some (w ∷ words)

-- The words of the text that is left; `none` is `ValueError`, for an open quote or a last backslash.
unfoldable pub words_from : Mode → Text → Text → Option (List Text)
unfolding move
words_from space token [] = some []
words_from word token [] = some (token ∷ [])
words_from (quoted q) token [] = none
words_from (escaped q) token [] = none
words_from m token (c ∷ text) =
    let next = move m token c in with_word next.ended (words_from next.mode next.token text)

-- `shlex.split(text)`.
abbrev pub split : Text → Option (List Text)
split text = words_from space [] text
