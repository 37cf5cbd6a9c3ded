-- ===== src/Dispatcher/State.antt =====
-- The state of `OperationDispatcher` in operations/dispatcher.py: what its workers share, and the
-- tables of operations/store.py. A set is a list; a dict keyed by an id is a table with that key.
use incidentlens.Common.{
  String, Bool, true, false, ◌&&◌, not, Option, none, some, List, ◌∷◌, if◌then◌else◌, any, filter,
  str_eq,
}
use incidentlens.Common.Sql.{delete_where}
use incidentlens.Common.Keyed.{string_key, has_key}
use incidentlens.Operation.Types.{Operation, Db, operation_key}
use incidentlens.Operation.Recovery.{is_dangerous}

pub record Dispatcher : Type 0 where
  pub active : Bool
  pub in_flight : List Operation
  pub active_sessions : List String
  pub active_dangerous_targets : List String
  pub db : Db

abbrev pub in_set : String → List String → Bool
in_set x xs = any (λ y. str_eq y x) xs

-- `set.add`.
abbrev pub add : String → List String → List String
add x xs = if in_set x xs then xs else x ∷ xs

-- `set.discard`.
abbrev pub discard : String → List String → List String
discard x xs = filter (λ y. not (str_eq y x)) xs

-- `dict.pop(key, None)`.
abbrev pub pop : String → List Operation → List Operation
pop id ops = delete_where (has_key operation_key id) ops

-- `self._in_flight[op.operation_id] = op`.
abbrev pub put : Operation → List Operation → List Operation
put op ops = op ∷ pop op.operation_id ops

abbrev pub add_session : Option String → List String → List String
add_session none sessions = sessions
add_session (some s) sessions = add s sessions

abbrev pub discard_session : Option String → List String → List String
discard_session none sessions = sessions
discard_session (some s) sessions = discard s sessions

abbrev pub in_sessions : Option String → List String → Bool
in_sessions none sessions = false
in_sessions (some s) sessions = in_set s sessions

-- `_serialization_blocked`.
unfoldable pub serialization_blocked : Operation → Dispatcher → Bool
serialization_blocked op d =
    if in_sessions op.session_id d.active_sessions
    then true
    else is_dangerous op.kind && in_set op.target_id d.active_dangerous_targets

-- What `_claim_next` records of the row that it has claimed.
unfoldable pub hold : Operation → Dispatcher → Dispatcher
hold op d = record d {
  in_flight = put op d.in_flight;
  active_sessions = add_session op.session_id d.active_sessions;
  active_dangerous_targets =
      if is_dangerous op.kind
      then add op.target_id d.active_dangerous_targets
      else d.active_dangerous_targets;
}

-- `_release`.
unfoldable pub release : Operation → Dispatcher → Dispatcher
release op d = record d {
  in_flight = pop op.operation_id d.in_flight;
  active_sessions = discard_session op.session_id d.active_sessions;
  active_dangerous_targets =
      if is_dangerous op.kind
      then discard op.target_id d.active_dangerous_targets
      else d.active_dangerous_targets;
}
