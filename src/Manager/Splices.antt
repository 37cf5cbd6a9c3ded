-- ===== src/Manager/Splices.antt =====
-- _apply_edits of changes/manager.py: the parts that it joins are the text with every range
-- replaced, the last one first.
use incidentlens.Common.{
  ℕ, zero, suc, ◌-◌, ◌≤◌, false, List, [], ◌∷◌, ◌++◌, length, take, drop, All, ltb, Text, ◌≡◌, refl,
  sym, ap, ◌∙◌, arith, Bool-cases, inl, inr, length-append,
}
use incidentlens.Manager.Edits.{Range, splice, overlaps}

-- `text[: start] + new_text + text[stop :]`.
abbrev pub replace_range : Range → Text → Text
replace_range r text = take r.start text ++ (r.new_text ++ drop r.stop text)

-- The ranges replaced from the highest offset to the lowest.
abbrev pub highest_first : Text → List Range → Text
highest_first text [] = text
highest_first text (r ∷ ranges) = replace_range r (highest_first text ranges)

-- Each range starts at or after the end of the one before.
abbrev pub IsChain : ℕ → ℕ → List Range → Type 0
IsChain size cursor [] = Unit
IsChain size cursor (r ∷ ranges) =
    (cursor ≤ r.start) × (r.start ≤ r.stop) × (r.stop ≤ size) × IsChain size r.stop ranges

take-take : (m n : ℕ) (xs : Text) → m ≤ n → take m (take n xs) ≡ take m xs
take-take zero n xs h = refl
take-take (suc m) zero xs h = absurd (omega arith)
take-take (suc m) (suc n) [] h = refl
take-take (suc m) (suc n) (x ∷ xs) h = ap (◌∷◌ x) (take-take m n xs (omega arith))

take-append_le : (m : ℕ) (xs ys : Text) → m ≤ length xs → take m (xs ++ ys) ≡ take m xs
take-append_le zero xs ys h = refl
take-append_le (suc m) [] ys h = absurd (omega arith)
take-append_le (suc m) (x ∷ xs) ys h = ap (◌∷◌ x) (take-append_le m xs ys (omega arith))

drop-append_le : (m : ℕ) (xs ys : Text) → m ≤ length xs → drop m (xs ++ ys) ≡ drop m xs ++ ys
drop-append_le zero xs ys h = refl
drop-append_le (suc m) [] ys h = absurd (omega arith)
drop-append_le (suc m) (x ∷ xs) ys h = drop-append_le m xs ys (omega arith)

length-take : (n : ℕ) (xs : Text) → n ≤ length xs → length (take n xs) ≡ n
length-take zero xs h = refl
length-take (suc n) [] h = absurd (omega arith)
length-take (suc n) (x ∷ xs) h = ap (λ k. suc k) (length-take n xs (omega arith))

take_nil : (n : ℕ) → take {A = ℕ} n [] ≡ []
take_nil zero = refl
take_nil (suc n) = refl

drop-take : (m n : ℕ) (xs : Text) → m ≤ n → drop m (take n xs) ≡ take (n - m) (drop m xs)
drop-take zero n xs h = ap (λ k. take k xs) (omega arith)
drop-take (suc m) zero xs h = absurd (omega arith)
drop-take (suc m) (suc n) [] h = sym (take_nil (suc n - suc m))
drop-take (suc m) (suc n) (x ∷ xs) h =
    drop-take m n xs (omega arith) ∙ ap (λ k. take k (drop m xs)) (omega arith)

-- Up to the first range the text is kept, and no replacement makes it too short for the next.
highest_first-take :
    (text : Text) (cursor : ℕ) (ranges : List Range)
    → cursor ≤ length text
    → IsChain (length text) cursor ranges
    → (take cursor (highest_first text ranges) ≡ take cursor text)
      × (cursor ≤ length (highest_first text ranges))
highest_first-take text cursor [] le h = (refl, le)
highest_first-take text cursor (r ∷ ranges) le (low, ordered, high, chain) =
    let rest = highest_first text ranges in
    let (same, long) = highest_first-take text r.stop ranges high chain in
    let size = length-take r.start rest (omega arith) in
    let whole = length-append (take r.start rest) (r.new_text ++ drop r.stop rest) in
    (
      take-append_le cursor (take r.start rest) (r.new_text ++ drop r.stop rest) (omega arith)
          ∙ take-take cursor r.start rest low
          ∙ sym (take-take cursor r.stop rest (omega arith))
          ∙ ap (take cursor) same
          ∙ take-take cursor r.stop text (omega arith),
      omega (arith, whole, size),
    )

pub splice-highest_first :
    (text : Text) (cursor : ℕ) (ranges : List Range)
    → cursor ≤ length text
    → IsChain (length text) cursor ranges
    → splice text cursor ranges ≡ drop cursor (highest_first text ranges)
unfolding splice
splice-highest_first text cursor [] le h = refl
splice-highest_first text cursor (r ∷ ranges) le (low, ordered, high, chain) =
    let rest = highest_first text ranges in
    let (same, long) = highest_first-take text r.stop ranges high chain in
    let size = length-take r.start rest (omega arith) in
    let before : take (r.start - cursor) (drop cursor text) ≡ drop cursor (take r.start rest) =
      sym (drop-take cursor r.start text low)
      ∙ ap (drop cursor) (
          sym (take-take r.start r.stop text ordered)
          ∙ ap (take r.start) (sym same)
          ∙ take-take r.start r.stop rest ordered) in
    rw (before, splice-highest_first text r.stop ranges high chain)
      (sym
        (drop-append_le cursor (take r.start rest) (r.new_text ++ drop r.stop rest) (omega arith)))

abbrev pub IsInside : ℕ → Range → Type 0
IsInside size r = (r.start ≤ r.stop) × (r.stop ≤ size)

abbrev StartsFrom : ℕ → List Range → Type 0
StartsFrom cursor [] = Unit
StartsFrom cursor (r ∷ ranges) = cursor ≤ r.start

-- Ranges of which none overlaps the next one.
overlaps-IsChain_from :
    (size cursor : ℕ) (ranges : List Range)
    → StartsFrom cursor ranges
    → All (IsInside size) ranges
    → overlaps ranges ≡ false
    → IsChain size cursor ranges
overlaps-IsChain_from size cursor [] low h o = tt
overlaps-IsChain_from size cursor (r ∷ []) low h o = (low, h.0.0, h.0.1, tt)
overlaps-IsChain_from size cursor (r ∷ s ∷ ranges) low h o =
    elim (Bool-cases (ltb s.start r.stop)) [
      | inl e ↦ absurd (cc (rw e at o))
      | inr e ↦ (
        low,
        h.0.0,
        h.0.1,
        overlaps-IsChain_from size r.stop (s ∷ ranges) (ground (arith, e)) h.1 (rw e at o),
      )
    ]

pub overlaps-IsChain :
    (size : ℕ) (ranges : List Range)
    → All (IsInside size) ranges
    → overlaps ranges ≡ false
    → IsChain size 0 ranges
overlaps-IsChain size [] h o = tt
overlaps-IsChain size (r ∷ ranges) h o = overlaps-IsChain_from size 0 (r ∷ ranges) (omega arith) h o
