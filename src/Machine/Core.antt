-- ===== src/Machine/Core.antt =====
-- class StateMachine of investigation/state_machine.py.
use incidentlens.Common.{
  ◌≡◌, arith, Bool, false, ◌||◌, not, Option, none, some, List, [], ◌∷◌, if◌then◌else◌, any, Result,
  ok, err,
}
use incidentlens.Machine.Status.{Status, StatusType, status_type, same_type, status_eq}

-- The messages of `IllegalTransition`, by where it is raised.
pub data IllegalTransition : Type 0 where
  illegal_move : Status → Status → IllegalTransition
  foreign_status : Status → IllegalTransition
  terminal_state : Status → IllegalTransition

abbrev pub Table : Type 0
Table = List (Status × List Status)

pub record StateMachine : Type 0 where
  pub table : Table
  pub terminal : List Status
  pub owner : Option StatusType

-- `next(iter(…), None)`: all members of a table or a terminal set have one type.
abbrev first_type : Table → List Status → Option StatusType
first_type ((s, _) ∷ _) _ = some (status_type s)
first_type [] (s ∷ _) = some (status_type s)
first_type [] [] = none

-- `StateMachine.__init__`.
abbrev pub state_machine : Table → List Status → StateMachine
state_machine table terminal = record {
  table = table;
  terminal = terminal;
  owner = first_type table terminal;
}

-- `x in {…}`.
abbrev pub mem_status : Status → List Status → Bool
mem_status s = any (status_eq s)

-- `table.get(current, frozenset())`.
abbrev pub targets_of : Table → Status → List Status
targets_of [] current = []
targets_of ((s, targets) ∷ table) current =
    if status_eq current s then targets else targets_of table current

abbrev pub is_foreign : StateMachine → Status → Bool
is_foreign m s = elim m.owner [ none ↦ false | some t ↦ not (same_type (status_type s) t) ]

unfoldable pub unguarded_transition : StateMachine → Status → Status → Bool
unguarded_transition m current target = mem_status target (targets_of m.table current)

unfoldable pub can_transition : StateMachine → Status → Status → Bool
unfolding unguarded_transition
can_transition m current target =
    if is_foreign m current || is_foreign m target
    then false
    else unguarded_transition m current target

unfoldable pub assert_transition : StateMachine → Status → Status → Result IllegalTransition Status
assert_transition m current target =
    if not (can_transition m current target) then err (illegal_move current target) else ok target

unfoldable pub is_terminal : StateMachine → Status → Bool
is_terminal m s = if is_foreign m s then false else mem_status s m.terminal

unfoldable pub assert_not_terminal : StateMachine → Status → Result IllegalTransition (Unit {0})
assert_not_terminal m s =
    if is_foreign m s
    then err (foreign_status s)
    else if mem_status s m.terminal
    then err (terminal_state s)
    else ok tt

unfoldable pub transitions : StateMachine → Status → List Status
transitions m current = targets_of m.table current

pub assert_transition_if :
    (m : StateMachine) (s t : Status)
    → assert_transition m s t ≡ (if can_transition m s t then ok t else err (illegal_move s t))
unfolding assert_transition
assert_transition_if m s t = ground arith
