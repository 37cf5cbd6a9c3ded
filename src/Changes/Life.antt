-- ===== src/Changes/Life.antt =====
-- The states that a change set goes through, whatever transitions are asked for.
use incidentlens.Common.{
  ℕ, zero, suc, ◌<◌, Bool, true, false, ◌||◌, List, [], ◌∷◌, ◌++◌, take, length, any, ◌≡◌, refl,
  arith, Bool-cases, inl, inr, ◌⊎◌,
}
use incidentlens.Common.Keyed.{string_key}
use incidentlens.Changes.Types.{
  ChangeSetStatus, draft, preflighted, locally_backed_up, remotely_backed_up, applied, validated,
  verified, failed, rolled_back, is_terminal, same_status, valid_predecessors,
}
use incidentlens.Changes.Store.{is_allowed}

-- The states that follow one in a change that works.
abbrev pub after : ChangeSetStatus → List ChangeSetStatus
after draft =
    preflighted ∷ locally_backed_up ∷ remotely_backed_up ∷ applied ∷ validated ∷ verified ∷ []
after preflighted = locally_backed_up ∷ remotely_backed_up ∷ applied ∷ validated ∷ verified ∷ []
after locally_backed_up = remotely_backed_up ∷ applied ∷ validated ∷ verified ∷ []
after remotely_backed_up = applied ∷ validated ∷ verified ∷ []
after applied = validated ∷ verified ∷ []
after validated = verified ∷ []
after verified = []
after failed = []
after rolled_back = []

abbrev pub last_or : ChangeSetStatus → List ChangeSetStatus → ChangeSetStatus
last_or s [] = s
last_or s (t ∷ ts) = last_or t ts

-- The moves made from a state, and the state that they end in: some of the states that follow it,
-- in their order with none left out, and then maybe a failure before the last of them, or a
-- rollback once the change is applied or validated.
pub data IsLife (s : ChangeSetStatus) (rest : List ChangeSetStatus)
    : List ChangeSetStatus → ChangeSetStatus → Type 0 where
  in_order : (k : ℕ) → IsLife s rest (take k rest) (last_or s (take k rest))
  fails : (k : ℕ) → k < length rest → IsLife s rest (take k rest ++ failed ∷ []) failed
  rolls_back :
      (k : ℕ)
      → (last_or s (take k rest) ≡ applied) ⊎ (last_or s (take k rest) ≡ validated)
      → IsLife s rest (take k rest ++ rolled_back ∷ []) rolled_back

IsLife-next :
    {s t e : ChangeSetStatus} {rest ts : List ChangeSetStatus}
    → IsLife t rest ts e
    → IsLife s (t ∷ rest) (t ∷ ts) e
IsLife-next (in_order k) = in_order (suc k)
IsLife-next (fails k h) = fails (suc k) (omega (arith, h))
IsLife-next (rolls_back k h) = rolls_back (suc k) h

same_status-≡ : (s t : ChangeSetStatus) → same_status s t ≡ true → s ≡ t
same_status-≡ draft draft h = refl
same_status-≡ preflighted preflighted h = refl
same_status-≡ locally_backed_up locally_backed_up h = refl
same_status-≡ remotely_backed_up remotely_backed_up h = refl
same_status-≡ applied applied h = refl
same_status-≡ validated validated h = refl
same_status-≡ verified verified h = refl
same_status-≡ failed failed h = refl
same_status-≡ rolled_back rolled_back h = refl
same_status-≡ s t h = absurd (cc h)

or_false : (b : Bool) → (b || false) ≡ true → b ≡ true
or_false b h = ground (arith, h)

chain_move :
    (s p t : ChangeSetStatus)
    → any (same_status s) (p ∷ []) ≡ true
    → after p ≡ t ∷ after t
    → after s ≡ t ∷ after t
chain_move s p t h e = rw (same_status-≡ s p (or_false (same_status s p) h)) e

not_last : (s : ChangeSetStatus) → is_terminal s ≡ false → 0 < length (after s)
not_last verified h = absurd (cc h)
not_last failed h = absurd (cc h)
not_last rolled_back h = absurd (cc h)
not_last s h = omega arith

applied_or_validated :
    (s : ChangeSetStatus)
    → any (same_status s) (applied ∷ validated ∷ []) ≡ true
    → (s ≡ applied) ⊎ (s ≡ validated)
applied_or_validated s h = elim (Bool-cases (same_status s applied)) [
  | inl e ↦ inl (same_status-≡ s applied e)
  | inr e ↦ inr (same_status-≡ s validated (or_false (same_status s validated) (rw e at h)))
]

-- The moves that the journal allows.
pub data IsMove (s : ChangeSetStatus) : ChangeSetStatus → Type 0 where
  onward : {t : ChangeSetStatus} → after s ≡ t ∷ after t → IsMove s t
  failure : 0 < length (after s) → IsMove s failed
  undone : (s ≡ applied) ⊎ (s ≡ validated) → IsMove s rolled_back

pub allowed-IsMove :
    (s t : ChangeSetStatus)
    → is_terminal s ≡ false
    → is_allowed s (valid_predecessors t) ≡ true
    → IsMove s t
allowed-IsMove s draft h k = absurd (cc k)
allowed-IsMove s preflighted h k = onward (chain_move s draft preflighted k refl)
allowed-IsMove s locally_backed_up h k = onward (chain_move s preflighted locally_backed_up k refl)
allowed-IsMove s remotely_backed_up h k =
    onward (chain_move s locally_backed_up remotely_backed_up k refl)
allowed-IsMove s applied h k = onward (chain_move s remotely_backed_up applied k refl)
allowed-IsMove s validated h k = onward (chain_move s applied validated k refl)
allowed-IsMove s verified h k = onward (chain_move s validated verified k refl)
allowed-IsMove s failed h k = failure (not_last s h)
allowed-IsMove s rolled_back h k = undone (applied_or_validated s k)

-- A state that nothing follows and that cannot be rolled back is kept.
IsLife-ended :
    {s e : ChangeSetStatus} {ts : List ChangeSetStatus}
    → ¬ ((s ≡ applied) ⊎ (s ≡ validated))
    → IsLife s [] ts e
    → (ts ≡ []) × (e ≡ s)
IsLife-ended ends (in_order zero) = (refl, refl)
IsLife-ended ends (in_order (suc k)) = (refl, refl)
IsLife-ended ends (fails k h) = absurd (omega (arith, h))
IsLife-ended ends (rolls_back zero h) = absurd (ends h)
IsLife-ended ends (rolls_back (suc k) h) = absurd (ends h)

pub IsLife-move :
    {s t e : ChangeSetStatus} {ts : List ChangeSetStatus}
    → IsMove s t
    → IsLife t (after t) ts e
    → IsLife s (after s) (t ∷ ts) e
IsLife-move {s} {t} (onward h) life = rw h (IsLife-next life)
IsLife-move {s} (failure h) life =
    let (ts_are, e_is) = IsLife-ended (λ o. elim o [ inl p ↦ cc p | inr p ↦ cc p ]) life in
    rw (ts_are, e_is) (fails 0 h)
IsLife-move {s} (undone h) life =
    let (ts_are, e_is) = IsLife-ended (λ o. elim o [ inl p ↦ cc p | inr p ↦ cc p ]) life in
    rw (ts_are, e_is) (rolls_back 0 h)
