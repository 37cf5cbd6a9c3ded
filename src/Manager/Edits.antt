-- ===== src/Manager/Edits.antt =====
-- The edits of changes/manager.py: _find_occurrences, _apply_edits, _validate_content, _check_sha.
use incidentlens.Common.{
  ℕ, zero, suc, ◌+◌, ◌-◌, Bool, true, false, ◌&&◌, ◌||◌, not, Option, none, some, List, [], ◌∷◌,
  ◌++◌, ◌==◌, ltb, length, take, drop, if◌then◌else◌, Text, is, same_text, starts_with, Result, ok,
  err,
}
use incidentlens.Policy.Paths.{PurePosixPath}
use incidentlens.Changes.Vault.{Bytes}
use incidentlens.Manager.Types.{
  Runtime, TextReplacement, Failure, problem, not_utf8, occurrences_differ, text_not_found,
  overlapping, validation_failed, sha_mismatch,
}
use incidentlens.Manager.Paths.{suffix_of, lower}

-- `text.find(needle, start)` on what is left of the text from `start` on.
unfoldable pub find_from : Text → ℕ → Text → Option ℕ
find_from needle start [] = if starts_with needle [] then some start else none
find_from needle start (c ∷ rest) =
    let later = find_from needle (suc start) rest in
    if starts_with needle (c ∷ rest) then some start else later

-- The `while True` of `_find_occurrences`; each round starts after the last found, so that as many
-- rounds as the text has characters, and one, are enough.
abbrev pub next_round : ℕ → Text → Option ℕ → (ℕ → List ℕ) → List ℕ
next_round start text none more = []
next_round start text (some idx) more = idx ∷ more (suc idx)

unfoldable pub occurrences_from : ℕ → Text → Text → ℕ → List ℕ
unfolding find_from
occurrences_from zero text needle start = []
occurrences_from (suc fuel) text needle start =
    next_round start text (find_from needle start (drop start text))
      (λ next. occurrences_from fuel text needle next)

unfoldable pub find_occurrences : Text → Text → List ℕ
unfolding occurrences_from
find_occurrences text needle = occurrences_from (suc (length text)) text needle 0

-- A range `(start, end, new_text)`.
pub record Range : Type 0 where
  pub start : ℕ
  pub stop : ℕ
  pub new_text : Text

abbrev pub ranges_at : TextReplacement → List ℕ → List Range
ranges_at replacement [] = []
ranges_at replacement (start ∷ starts) =
    record {
      start = start;
      stop = start + length replacement.old_text;
      new_text = replacement.new_text;
    }
    ∷ ranges_at replacement starts

abbrev pub is_empty : List ℕ → Bool
is_empty [] = true
is_empty (start ∷ starts) = false

abbrev pub of_replacement : TextReplacement → List ℕ → Result Failure (List Range)
of_replacement replacement starts =
    if not (length starts == replacement.expected_count)
    then err (problem occurrences_differ)
    else if is_empty starts
    then err (problem text_not_found)
    else ok (ranges_at replacement starts)

abbrev pub both :
    Result Failure (List Range) → Result Failure (List Range) → Result Failure (List Range)
both (err e) later = err e
both (ok ranges) (err e) = err e
both (ok ranges) (ok more) = ok (ranges ++ more)

unfoldable pub collect_ranges : Text → List TextReplacement → Result Failure (List Range)
unfolding find_occurrences
collect_ranges text [] = ok []
collect_ranges text (r ∷ replacements) =
    both (of_replacement r (find_occurrences text r.old_text)) (collect_ranges text replacements)

-- The order of the tuples.
abbrev text_before : Text → Text → Bool
text_before [] b = true
text_before (c ∷ a) [] = false
text_before (c ∷ a) (d ∷ b) = ltb c d || (c == d && text_before a b)

abbrev pub range_le : Range → Range → Bool
range_le r s =
    ltb r.start s.start
    || (r.start == s.start
        && (ltb r.stop s.stop || (r.stop == s.stop && text_before r.new_text s.new_text)))

abbrev pub insert_range : Range → List Range → List Range
insert_range r [] = r ∷ []
insert_range r (s ∷ ranges) =
    let rest = insert_range r ranges in if range_le r s then r ∷ s ∷ ranges else s ∷ rest

-- `ranges.sort()`.
unfoldable pub sort_ranges : List Range → List Range
sort_ranges [] = []
sort_ranges (r ∷ ranges) = insert_range r (sort_ranges ranges)

abbrev pub overlaps : List Range → Bool
overlaps [] = false
overlaps (r ∷ []) = false
overlaps (r ∷ s ∷ ranges) = ltb s.start r.stop || overlaps (s ∷ ranges)

-- The join of the parts from `cursor` on.
unfoldable pub splice : Text → ℕ → List Range → Text
splice text cursor [] = drop cursor text
splice text cursor (r ∷ ranges) =
    take (r.start - cursor) (drop cursor text) ++ (r.new_text ++ splice text r.stop ranges)

abbrev pub spliced : Runtime → Text → List Range → Result Failure Bytes
spliced py text ranges =
    if overlaps ranges then err (problem overlapping) else ok (py.encode (splice text 0 ranges))

abbrev pub edited : Runtime → Text → Result Failure (List Range) → Result Failure Bytes
edited py text (err e) = err e
edited py text (ok ranges) = spliced py text (sort_ranges ranges)

abbrev pub edit_text : Runtime → List TextReplacement → Option Text → Result Failure Bytes
edit_text py replacements none = err not_utf8
edit_text py replacements (some text) = edited py text (collect_ranges text replacements)

-- `_apply_edits`.
unfoldable pub apply_edits : Runtime → Bytes → List TextReplacement → Result Failure Bytes
unfolding collect_ranges sort_ranges splice
apply_edits py content replacements = edit_text py replacements (py.decode content)

abbrev parsed : (Text → Bool) → Option Text → Result Failure Bool
parsed parses none = err (problem validation_failed)
parsed parses (some text) = if parses text then ok true else err (problem validation_failed)

-- `_validate_content`: whether the content was validated.
unfoldable pub validate_content : Runtime → PurePosixPath → Bytes → Result Failure Bool
unfolding is same_text lower
validate_content py path content =
    let suffix = lower py (suffix_of path) in
    if is suffix ".py"
    then parsed py.parses_python (py.decode content)
    else if is suffix ".json"
    then parsed py.parses_json (py.decode content)
    else if is suffix ".toml"
    then parsed py.parses_toml (py.decode content)
    else ok false

abbrev pub check_sha : Runtime → Bytes → Text → Result Failure (Unit {0})
check_sha py content expected =
    if same_text (py.crypto.hexdigest content) expected then ok tt else err (problem sha_mismatch)
