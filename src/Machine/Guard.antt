-- ===== src/Machine/Guard.antt =====
-- What the guards of class StateMachine in investigation/state_machine.py admit.
use incidentlens.Common.{◌≡◌, refl, true, false, arith, ◌↔◌, List, [], ◌∷◌, ok, err}
use incidentlens.Machine.Status.{Status, value}
use incidentlens.Machine.Core.{
  StateMachine, illegal_move, foreign_status, is_foreign, is_terminal, can_transition,
  unguarded_transition, assert_transition, assert_not_terminal, mem_status, targets_of, Table,
}

-- A status of another enum is refused by every operation of a machine, whatever its value.
pub foreign_refused :
    (m : StateMachine) (s t : Status)
    → is_foreign m s ≡ true
    → (can_transition m s t ≡ false)
      × (can_transition m t s ≡ false)
      × (assert_transition m s t ≡ err (illegal_move s t))
      × (assert_transition m t s ≡ err (illegal_move t s))
      × (is_terminal m s ≡ false)
      × (assert_not_terminal m s ≡ err (foreign_status s))
unfolding can_transition assert_transition is_terminal assert_not_terminal
foreign_refused m s t h = ground arith

targets_of-value :
    (table : Table) (s s' : Status) → value s ≡ value s' → targets_of table s ≡ targets_of table s'
targets_of-value [] s s' p = refl
targets_of-value ((x, ts) ∷ table) s s' p = rw (p, targets_of-value table s s' p)

mem_status-value :
    (ts : List Status) (t t' : Status) → value t ≡ value t' → mem_status t ts ≡ mem_status t' ts
mem_status-value [] t t' q = refl
mem_status-value (x ∷ ts) t t' q = rw (q, mem_status-value ts t t' q)

-- Without the guard a status of another enum is taken for the one with its value.
pub unguarded_confuses :
    (m : StateMachine) (s s' t t' : Status)
    → value s ≡ value s'
    → value t ≡ value t'
    → unguarded_transition m s t ≡ unguarded_transition m s' t'
unfolding unguarded_transition
unguarded_confuses m s s' t t' p q =
    rw (targets_of-value m.table s s' p) (mem_status-value (targets_of m.table s') t t' q)

-- `assert_transition` returns exactly the target, and exactly where `can_transition` holds.
pub assert_transition_iff :
    (m : StateMachine) (s t u : Status)
    → (assert_transition m s t ≡ ok u) ↔ ((can_transition m s t ≡ true) × (u ≡ t))
unfolding assert_transition
assert_transition_iff m s t u = ((λ h. ground arith), λ h. ground arith)
