-- ===== src/Manager/Applied.antt =====
-- What _apply_edits of changes/manager.py gives.
use incidentlens.Common.{
  ℕ, suc, ◌+◌, ◌<◌, ◌≤◌, true, false, Option, none, some, List, [], ◌∷◌, ◌++◌, length, All,
  All-append, ◌==◌, Text, starts_with, Result, ok, err, ◌≡◌, refl, sym, ap, ◌∙◌, arith, Bool-cases,
  inl, inr,
}
use incidentlens.Changes.Vault.{Bytes}
use incidentlens.Manager.Types.{Runtime, TextReplacement, Failure}
use incidentlens.Manager.Edits.{
  Range, ranges_at, find_occurrences, of_replacement, both, collect_ranges, insert_range,
  sort_ranges, range_le, overlaps, spliced, edited, edit_text, apply_edits, is_empty,
}
use incidentlens.Manager.Occurrences.{positions, find_occurrences-positions}
use incidentlens.Manager.Splices.{highest_first, IsInside, overlaps-IsChain, splice-highest_first}

-- The ranges of all occurrences of all replacements.
abbrev pub all_ranges : Text → List TextReplacement → List Range
all_ranges text [] = []
all_ranges text (r ∷ replacements) =
    ranges_at r (positions r.old_text 0 text) ++ all_ranges text replacements

abbrev pub AreCounted : Text → List TextReplacement → Type 0
AreCounted text replacements =
    All (λ (r : TextReplacement). length (positions r.old_text 0 text) ≡ r.expected_count)
      replacements

abbrev pub AreNonempty : List TextReplacement → Type 0
AreNonempty replacements = All (λ (r : TextReplacement). 0 < length r.old_text) replacements

starts_with-le : (needle text : Text) → starts_with needle text ≡ true → length needle ≤ length text
starts_with-le [] text h = omega arith
starts_with-le (c ∷ needle) [] h = absurd (cc h)
starts_with-le (c ∷ needle) (d ∷ text) h = ground (arith, starts_with-le needle text)

positions-inside :
    (needle : Text) (start size : ℕ) (text : Text)
    → start + length text ≤ size
    → All (λ k. k + length needle ≤ size) (positions needle start text)
positions-inside needle start size [] h = tt
positions-inside needle start size (c ∷ text) h =
    elim (Bool-cases (starts_with needle (c ∷ text))) [
      | inl e ↦ rw e (
        omega (arith, starts_with-le needle (c ∷ text) e),
        positions-inside needle (suc start) size text (omega arith),
      )
      | inr e ↦ rw e (positions-inside needle (suc start) size text (omega arith))
    ]

ranges_at-IsInside :
    (size : ℕ) (r : TextReplacement) (starts : List ℕ)
    → All (λ k. k + length r.old_text ≤ size) starts
    → All (IsInside size) (ranges_at r starts)
ranges_at-IsInside size r [] h = tt
ranges_at-IsInside size r (k ∷ starts) h =
    ((omega arith, h.0), ranges_at-IsInside size r starts h.1)

all_ranges-IsInside :
    (text : Text) (replacements : List TextReplacement)
    → All (IsInside (length text)) (all_ranges text replacements)
all_ranges-IsInside text [] = tt
all_ranges-IsInside text (r ∷ replacements) =
    All-append (IsInside (length text)) (ranges_at r (positions r.old_text 0 text))
      (all_ranges text replacements)
      (ranges_at-IsInside (length text) r (positions r.old_text 0 text)
        (positions-inside r.old_text 0 (length text) text (omega arith)))
      (all_ranges-IsInside text replacements)

All-insert_range :
    (P : Range → Type 0) (r : Range) (ranges : List Range)
    → P r
    → All P ranges
    → All P (insert_range r ranges)
All-insert_range P r [] p h = (p, tt)
All-insert_range P r (s ∷ ranges) p h = elim (Bool-cases (range_le r s)) [
  | inl e ↦ rw e (p, h)
  | inr e ↦ rw e (h.0, All-insert_range P r ranges p h.1)
]

All-sort_ranges :
    (P : Range → Type 0) (ranges : List Range) → All P ranges → All P (sort_ranges ranges)
unfolding sort_ranges
All-sort_ranges P [] h = tt
All-sort_ranges P (r ∷ ranges) h =
    All-insert_range P r (sort_ranges ranges) h.0 (All-sort_ranges P ranges h.1)

found_positions :
    (needle text : Text)
    → 0 < length needle
    → find_occurrences text needle ≡ positions needle 0 text
found_positions [] text h = absurd (omega arith)
found_positions (a ∷ tail) text h = find_occurrences-positions a tail text

ok_inj : {A : Type 0} {a b : A} → ◌≡◌ {A = Result Failure A} (ok a) (ok b) → a ≡ b
ok_inj e = cc e

of_replacement_ok :
    (r : TextReplacement) (starts : List ℕ) {ranges : List Range}
    → of_replacement r starts ≡ ok ranges
    → (length starts ≡ r.expected_count) × (ranges ≡ ranges_at r starts)
of_replacement_ok r starts {ranges} h = elim (Bool-cases (length starts == r.expected_count)) [
  | inr e ↦ absurd (cc (rw e at h))
  | inl e ↦ elim (Bool-cases (is_empty starts)) [
    | inl q ↦ absurd (cc (rw (e, q) at h))
    | inr q ↦ (ground (arith, e), sym (ok_inj (rw (e, q) at h)))
  ]
]

both_ok :
    (first later : Result Failure (List Range)) {ranges : List Range}
    → both first later ≡ ok ranges
    → (xs : List Range) × (ys : List Range) × (first ≡ ok xs)
      × (later ≡ ok ys)
      × (ranges ≡ xs ++ ys)
both_ok (err e) later h = absurd (cc h)
both_ok (ok xs) (err e) h = absurd (cc h)
both_ok (ok xs) (ok ys) h = (xs, ys, refl, refl, sym (ok_inj h))

collect_ranges_ok :
    (text : Text) (replacements : List TextReplacement) {ranges : List Range}
    → AreNonempty replacements
    → collect_ranges text replacements ≡ ok ranges
    → AreCounted text replacements × (ranges ≡ all_ranges text replacements)
unfolding collect_ranges
collect_ranges_ok text [] words h = (tt, sym (ok_inj h))
collect_ranges_ok text (r ∷ replacements) words h =
    let (xs, ys, first, later, joined) =
      both_ok (of_replacement r (find_occurrences text r.old_text))
        (collect_ranges text replacements) h in
    let found = found_positions r.old_text text words.0 in
    let (count, are) =
      of_replacement_ok r (positions r.old_text 0 text)
        (ap (of_replacement r) (sym found) ∙ first) in
    let (counts, rest) = collect_ranges_ok text replacements words.1 later in
    ((count, counts), joined ∙ rw (are, rest) refl)

spliced_ok :
    (py : Runtime) (text : Text) (ranges : List Range) {out : Bytes}
    → All (IsInside (length text)) ranges
    → spliced py text ranges ≡ ok out
    → (overlaps ranges ≡ false) × (out ≡ py.encode (highest_first text ranges))
spliced_ok py text ranges inside h = elim (Bool-cases (overlaps ranges)) [
  | inl e ↦ absurd (cc (rw e at h))
  | inr e ↦
      let whole =
        splice-highest_first text 0 ranges (omega arith)
          (overlaps-IsChain (length text) ranges inside e) in
      (e, sym (ok_inj (rw e at h)) ∙ ap py.encode whole)
]

-- What an edit must be: every text to replace occurs as often as expected, no two of the ranges
-- of all their occurrences overlap, and the result is the text with all of them replaced, from the
-- highest offset to the lowest.
pub record IsEdited (py : Runtime) (text : Text) (replacements : List TextReplacement) (out : Bytes)
    : Type 0 where
  pub counted : AreCounted text replacements
  pub apart : overlaps (sort_ranges (all_ranges text replacements)) ≡ false
  pub replaced : out ≡ py.encode (highest_first text (sort_ranges (all_ranges text replacements)))

spliced-IsEdited :
    (py : Runtime) (text : Text) (replacements : List TextReplacement) (ranges : List Range)
    {out : Bytes}
    → AreCounted text replacements
    → ranges ≡ all_ranges text replacements
    → spliced py text (sort_ranges ranges) ≡ ok out
    → IsEdited py text replacements out
spliced-IsEdited py text replacements ranges counts are h =
    let inside =
      All-sort_ranges (IsInside (length text)) (all_ranges text replacements)
        (all_ranges-IsInside text replacements) in
    let (apart, result) =
      spliced_ok py text (sort_ranges (all_ranges text replacements)) inside (rw are at h) in
    record { counted = counts; apart = apart; replaced = result }

edit_text-IsEdited :
    (py : Runtime) (text : Text) (replacements : List TextReplacement)
    (collected : Result Failure (List Range)) {out : Bytes}
    → collect_ranges text replacements ≡ collected
    → AreNonempty replacements
    → edited py text collected ≡ ok out
    → IsEdited py text replacements out
edit_text-IsEdited py text replacements (err e) c words h = absurd (cc h)
edit_text-IsEdited py text replacements (ok ranges) c words h =
    let (counts, are) = collect_ranges_ok text replacements words c in
    spliced-IsEdited py text replacements ranges counts are h

decoded-IsEdited :
    (py : Runtime) (replacements : List TextReplacement) (decoded : Option Text) {out : Bytes}
    → AreNonempty replacements
    → edit_text py replacements decoded ≡ ok out
    → (text : Text) × (decoded ≡ some text) × IsEdited py text replacements out
decoded-IsEdited py replacements none words h = absurd (cc h)
decoded-IsEdited py replacements (some text) words h = (
  text,
  refl,
  edit_text-IsEdited py text replacements (collect_ranges text replacements) refl words h,
)

-- Where an edit gives new content, the content is UTF-8, every text to replace occurs exactly as
-- often as it was expected to, overlapping occurrences counted, no two ranges overlap, and the new
-- content is the old text with all ranges replaced, from the highest offset to the lowest. The
-- texts to replace are not empty.
pub apply_edits-IsEdited :
    (py : Runtime) (content : Bytes) (replacements : List TextReplacement) {out : Bytes}
    → AreNonempty replacements
    → apply_edits py content replacements ≡ ok out
    → (text : Text) × (py.decode content ≡ some text) × IsEdited py text replacements out
unfolding apply_edits
apply_edits-IsEdited py content replacements words h =
    decoded-IsEdited py replacements (py.decode content) words h
