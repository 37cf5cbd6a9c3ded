-- ===== src/Events/Order.antt =====
-- The order of the rows of events/store.py: each append takes a sequence above all before it.
use incidentlens.Common.{
  ℕ, suc, ◌<◌, ◌≤◌, Bool, is_some, List, [], ◌∷◌, filter, le→leb, ◌≡◌, refl, ap, ◌∙◌, arith,
  Bool-cases, inl, inr,
}
use incidentlens.Common.Sql.{insert_row, order_by, insert_by}
use incidentlens.Common.Keyed.{string_key, find}
use incidentlens.Events.Types.{RuntimeEvent, EventRow, EventTable}
use incidentlens.Events.Store.{sequence_of, event_key, new_row, append, last_sequence_or}

-- The sequences rise from above a bound.
abbrev pub IsAbove : ℕ → List EventRow → Type 0
IsAbove bound [] = Unit
IsAbove bound (r ∷ rows) = (bound < r.event.sequence) × IsAbove r.event.sequence rows

-- They rise, and none is above the largest that was given.
abbrev pub IsLog : EventTable → Type 0
IsLog table = IsAbove 0 table.rows × (last_sequence_or 0 table.rows ≤ table.last_sequence)

pub IsAbove-weaken : (a b : ℕ) (rows : List EventRow) → a ≤ b → IsAbove b rows → IsAbove a rows
IsAbove-weaken a b [] le h = tt
IsAbove-weaken a b (r ∷ rows) le h = (ground arith, h.1)

pub IsAbove-filter :
    (p : EventRow → Bool) (bound : ℕ) (rows : List EventRow)
    → IsAbove bound rows
    → IsAbove bound (filter p rows)
IsAbove-filter p bound [] h = tt
IsAbove-filter p bound (r ∷ rows) h = elim (Bool-cases (p r)) [
  | inl e ↦ rw e (h.0, IsAbove-filter p r.event.sequence rows h.1)
  | inr e ↦ rw e (
      IsAbove-weaken bound r.event.sequence (filter p rows) (ground arith)
        (IsAbove-filter p r.event.sequence rows h.1))
]

IsAbove-insert :
    (bound n : ℕ) (rows : List EventRow) (r : EventRow)
    → IsAbove bound rows
    → last_sequence_or bound rows ≤ n
    → r.event.sequence ≡ suc n
    → IsAbove bound (insert_row r rows) × (last_sequence_or bound (insert_row r rows) ≡ suc n)
IsAbove-insert bound n [] r h le e = ((ground arith, tt), e)
IsAbove-insert bound n (s ∷ rows) r h le e =
    let (above, last) = IsAbove-insert s.event.sequence n rows r h.1 le e in ((h.0, above), last)

-- Ordering a log changes nothing.
insert_by-first :
    (bound : ℕ) (r : EventRow) (rows : List EventRow)
    → IsAbove r.event.sequence rows
    → insert_by sequence_of r rows ≡ r ∷ rows
unfolding insert_by
insert_by-first bound r [] h = refl
insert_by-first bound r (s ∷ rows) h =
    rw (le→leb r.event.sequence s.event.sequence (ground arith)) refl

pub order_by-IsAbove :
    (bound : ℕ) (rows : List EventRow) → IsAbove bound rows → order_by sequence_of rows ≡ rows
unfolding order_by
order_by-IsAbove bound [] h = refl
order_by-IsAbove bound (r ∷ rows) h =
    ap (insert_by sequence_of r) (order_by-IsAbove r.event.sequence rows h.1)
    ∙ insert_by-first bound r rows h.1

-- An append to a log gives a log.
pub append-IsLog :
    (event : RuntimeEvent) (table : EventTable) → IsLog table → IsLog (append event table).1
unfolding append new_row
append-IsLog event table h =
    elim (Bool-cases (is_some (find event_key event.event_id table.rows))) [
      | inl e ↦ rw e h
      | inr e ↦
          let (above, last) =
            IsAbove-insert 0 table.last_sequence table.rows
              (new_row event (suc table.last_sequence)) h.0 h.1 refl in
          rw e (above, ground (arith, last))
    ]
