-- ===== src/Events/Rows.antt =====
-- The rows that events/store.py selects after a cursor, and the ones before and after a limit.
use incidentlens.Common.{
  ℕ, zero, suc, ◌+◌, ◌≤◌, Bool, true, false, ◌&&◌, List, [], ◌∷◌, ◌++◌, filter, take, drop, length,
  ltb, ◌≡◌, refl, ap, arith, Bool-cases, inl, inr, map,
}
use incidentlens.Events.Types.{EventRow}
use incidentlens.Events.Store.{select_after, last_sequence_or}
use incidentlens.Events.Order.{IsAbove, IsAbove-filter, order_by-IsAbove}

-- The rows after a cursor that pass the filter.
abbrev pub after_cursor : ℕ → (EventRow → Bool) → EventRow → Bool
after_cursor after p r = ltb after r.event.sequence && p r

pub select_after-IsAbove :
    (after : ℕ) (p : EventRow → Bool) (rows : List EventRow)
    → IsAbove 0 rows
    → select_after after p rows ≡ filter (after_cursor after p) rows
unfolding select_after
select_after-IsAbove after p rows h =
    order_by-IsAbove 0 (filter (after_cursor after p) rows)
      (IsAbove-filter (after_cursor after p) 0 rows h)

pub filter_above :
    (c b : ℕ) (rows : List EventRow)
    → c ≤ b
    → IsAbove b rows
    → filter (λ r. ltb c r.event.sequence) rows ≡ rows
filter_above c b [] le h = refl
filter_above c b (r ∷ rows) le h =
    let e : ltb c r.event.sequence ≡ true = ground arith in
    rw e (ap (◌∷◌ r) (filter_above c r.event.sequence rows (ground arith) h.1))

pub last-IsAbove :
    (b n : ℕ) (rows : List EventRow) → IsAbove b rows → b ≤ last_sequence_or b (take n rows)
last-IsAbove b zero rows h = ground arith
last-IsAbove b (suc n) [] h = ground arith
last-IsAbove b (suc n) (r ∷ rows) h = ground (arith, last-IsAbove r.event.sequence n rows h.1)

-- Past the last of the first n rows come exactly the others.
pub filter-drop :
    (b n : ℕ) (rows : List EventRow)
    → IsAbove b rows
    → filter (λ r. ltb (last_sequence_or b (take (suc n) rows)) r.event.sequence) rows
      ≡ drop (suc n) rows
filter-drop b n [] h = refl
filter-drop b zero (r ∷ rows) h =
    let e : ltb r.event.sequence r.event.sequence ≡ false = ground arith in
    rw e (filter_above r.event.sequence r.event.sequence rows (ground arith) h.1)
filter-drop b (suc n) (r ∷ rows) h =
    let low = last-IsAbove r.event.sequence (suc n) rows h.1 in
    let e : ltb (last_sequence_or r.event.sequence (take (suc n) rows)) r.event.sequence ≡ false =
      ground (arith, low) in
    rw e (filter-drop r.event.sequence n rows h.1)

pub filter_twice :
    (after next : ℕ) (p : EventRow → Bool) (rows : List EventRow)
    → after ≤ next
    → filter (after_cursor next p) rows
      ≡ filter (λ r. ltb next r.event.sequence) (filter (after_cursor after p) rows)
filter_twice after next p [] le = refl
filter_twice after next p (r ∷ rows) le = elim (Bool-cases (after_cursor after p r)) [
  | inr e ↦
      let f : after_cursor next p r ≡ false = ground (arith, e) in
      rw (e, f) (filter_twice after next p rows le)
  | inl e ↦ elim (Bool-cases (ltb next r.event.sequence)) [
    | inl q ↦
        let f : p r ≡ true = ground (arith, e) in
        rw (e, q, f) (ap (◌∷◌ r) (filter_twice after next p rows le))
    | inr q ↦ rw (e, q) (filter_twice after next p rows le)
  ]
]

pub filter-IsAbove :
    (after : ℕ) (p : EventRow → Bool) (b : ℕ) (rows : List EventRow)
    → IsAbove b rows
    → IsAbove after (filter (after_cursor after p) rows)
filter-IsAbove after p b [] h = tt
filter-IsAbove after p b (r ∷ rows) h = elim (Bool-cases (after_cursor after p r)) [
  | inl e ↦
      rw e (ground (arith, e), IsAbove-filter (after_cursor after p) r.event.sequence rows h.1)
  | inr e ↦ rw e (filter-IsAbove after p r.event.sequence rows h.1)
]

pub take_less : {A : Type 0} (n : ℕ) (xs : List A) → take n (take (suc n) xs) ≡ take n xs
take_less zero [] = refl
take_less zero (x ∷ xs) = refl
take_less (suc n) [] = refl
take_less (suc n) (x ∷ xs) = ap (◌∷◌ x) (take_less n xs)

pub length-take_more :
    {A : Type 0} (n : ℕ) (xs : List A) → ltb n (length (take (suc n) xs)) ≡ ltb n (length xs)
length-take_more zero [] = refl
length-take_more zero (x ∷ xs) = ground arith
length-take_more (suc n) [] = refl
length-take_more (suc n) (x ∷ xs) = ground (arith, length-take_more n xs)

pub take-drop :
    {A B : Type 0} (f : A → B) (n : ℕ) (xs : List A)
    → map f (take n xs) ++ map f (drop n xs) ≡ map f xs
take-drop f zero xs = refl
take-drop f (suc n) [] = refl
take-drop f (suc n) (x ∷ xs) = ap (◌∷◌ (f x)) (take-drop f n xs)

pub take_all : {A : Type 0} (n : ℕ) (xs : List A) → length xs ≤ n → take n xs ≡ xs
take_all zero [] h = refl
take_all zero (x ∷ xs) h = absurd (omega (arith, h))
take_all (suc n) [] h = refl
take_all (suc n) (x ∷ xs) h = ap (◌∷◌ x) (take_all n xs (omega (arith, h)))

pub length-drop :
    {A : Type 0} (n : ℕ) (xs : List A) → n ≤ length xs → n + length (drop n xs) ≡ length xs
length-drop zero xs h = omega arith
length-drop (suc n) [] h = absurd (omega (arith, h))
length-drop (suc n) (x ∷ xs) h = omega (arith, length-drop n xs (omega (arith, h)))
