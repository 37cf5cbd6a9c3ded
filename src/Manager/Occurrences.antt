-- ===== src/Manager/Occurrences.antt =====
-- _find_occurrences of changes/manager.py finds every occurrence, overlapping ones included.
use incidentlens.Common.{
  ℕ, zero, suc, ◌+◌, ◌<◌, ◌≤◌, some, List, [], ◌∷◌, length, drop, if◌then◌else◌, Text, starts_with,
  ◌≡◌, refl, sym, ap, ◌∙◌, arith, Bool-cases, Option-cases, inl, inr,
}
use incidentlens.Manager.Edits.{find_from, next_round, occurrences_from, find_occurrences}

-- The positions at which the needle starts, by one pass over the text.
abbrev pub positions : Text → ℕ → Text → List ℕ
positions needle start [] = []
positions needle start (c ∷ text) =
    let rest = positions needle (suc start) text in
    if starts_with needle (c ∷ text) then start ∷ rest else rest

drop_nil : (n : ℕ) → drop {A = ℕ} n [] ≡ []
drop_nil zero = refl
drop_nil (suc n) = refl

drop-tail : (n : ℕ) (text rest : Text) (c : ℕ) → drop n text ≡ c ∷ rest → drop (suc n) text ≡ rest
drop-tail zero [] rest c h = absurd (cc h)
drop-tail zero (d ∷ text) rest c h = cc h
drop-tail (suc n) [] rest c h = absurd (cc h)
drop-tail (suc n) (d ∷ text) rest c h = drop-tail n text rest c h

drop_past : (n : ℕ) (text : Text) → length text < n → drop n text ≡ []
drop_past zero text h = absurd (omega arith)
drop_past (suc n) [] h = refl
drop_past (suc n) (c ∷ text) h = drop_past n text (omega arith)

module _ (a : ℕ) (tail : Text) where
  abbrev needle : Text
  needle = a ∷ tail

  find_from-le :
      (start : ℕ) (rest : Text) (idx : ℕ) → find_from needle start rest ≡ some idx → start ≤ idx
  unfolding find_from
  find_from-le start [] idx h = absurd (cc h)
  find_from-le start (c ∷ rest) idx h = elim (Bool-cases (starts_with needle (c ∷ rest))) [
    | inl e ↦ let same : some start ≡ some idx = rw e at h in ground arith
    | inr e ↦ omega (arith, find_from-le (suc start) rest idx (rw e at h))
  ]

  -- The next position, and the positions after it.
  positions-next :
      (text : Text) (start : ℕ) (rest : Text)
      → drop start text ≡ rest
      → positions needle start rest
        ≡ next_round start text
            (find_from needle start rest)
            (λ next. positions needle next (drop next text))
  unfolding find_from
  positions-next text start [] h = refl
  positions-next text start (c ∷ rest) h =
      let later = drop-tail start text rest c h in
      elim (Bool-cases (starts_with needle (c ∷ rest))) [
        | inl e ↦ rw e (rw later refl)
        | inr e ↦ rw e (positions-next text (suc start) rest later)
      ]

  occurrences_from-positions :
      (fuel : ℕ) (text : Text) (start : ℕ)
      → length text < start + fuel
      → occurrences_from fuel text needle start ≡ positions needle start (drop start text)
  unfolding occurrences_from
  occurrences_from-positions zero text start enough = rw (drop_past start text (omega arith)) refl
  occurrences_from-positions (suc fuel) text start enough =
      let split = positions-next text start (drop start text) refl in
      elim (Option-cases (find_from needle start (drop start text))) [
        | inl e ↦ rw e (sym (split ∙ rw e refl))
        | inr (idx, e) ↦
            let low = find_from-le start (drop start text) idx e in
            let next = occurrences_from-positions fuel text (suc idx) (omega arith) in
            ap (λ o. next_round start text o (λ k. occurrences_from fuel text needle k)) e
            ∙ ap (◌∷◌ idx) next
            ∙ sym (
                split ∙ ap (λ o. next_round start text o (λ k. positions needle k (drop k text))) e)
      ]

-- The loop of _find_occurrences ends within one round for each character and one more, and gives
-- exactly the positions at which the text that is looked for starts, in their order, overlapping
-- ones included, where that text is not empty.
pub find_occurrences-positions :
    (a : ℕ) (tail text : Text) → find_occurrences text (a ∷ tail) ≡ positions (a ∷ tail) 0 text
unfolding find_occurrences
find_occurrences-positions a tail text =
    occurrences_from-positions a tail (suc (length text)) text 0 (omega arith)
