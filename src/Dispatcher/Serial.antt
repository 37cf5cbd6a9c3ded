-- ===== src/Dispatcher/Serial.antt =====
-- The serialization rules of operations/dispatcher.py: what the operations in flight never share.
use mathlib.Core.Bool.{false≢true}
use incidentlens.Common.{
  String, ◌≡◌, refl, sym, Bool, true, false, ◌&&◌, ◌||◌, not, Option, none, some, List, [], ◌∷◌,
  inl, inr, arith, All, All-mono, Bool-cases, str_eq, eq_iff,
}
use incidentlens.Common.Sql.{All-delete}
use incidentlens.Common.Keyed.{string_key, has_key, find, IsUnique}
use incidentlens.Common.Ordered.{delete_where-filter, IsUnique-filter}
use incidentlens.Operation.Types.{Operation, operation_key}
use incidentlens.Operation.Recovery.{is_dangerous}
use incidentlens.Dispatcher.State.{
  Dispatcher, in_set, add, discard, pop, add_session, in_sessions, serialization_blocked, hold,
}

abbrev pub same_session : Option String → Option String → Bool
same_session (some s) (some t) = str_eq s t
same_session _ _ = false

-- Two operations that must not be in flight together: one session, or two dangerous operations on
-- one target.
abbrev pub conflicts : Operation → Operation → Bool
conflicts a b =
    same_session a.session_id b.session_id
    || (is_dangerous a.kind && (is_dangerous b.kind && str_eq a.target_id b.target_id))

abbrev pub IsFree : Operation → Operation → Type 0
IsFree a b = conflicts a b ≡ false

-- No two of the operations conflict.
abbrev pub IsSerial : List Operation → Type 0
IsSerial [] = Unit
IsSerial (op ∷ ops) = All (IsFree op) ops × IsSerial ops

-- The keys that an operation in flight holds.
abbrev pub IsHeld : List String → List String → Operation → Type 0
IsHeld sessions targets op =
    ((s : String) → op.session_id ≡ some s → in_set s sessions ≡ true)
    × (is_dangerous op.kind ≡ true → in_set op.target_id targets ≡ true)

pub record Serial (d : Dispatcher) : Type 0 where
  pub unique : IsUnique operation_key d.in_flight
  pub serial : IsSerial d.in_flight
  pub held : All (IsHeld d.active_sessions d.active_dangerous_targets) d.in_flight

in_set-add : (x y : String) (xs : List String) → in_set x xs ≡ true → in_set x (add y xs) ≡ true
in_set-add x y xs h = ground arith

in_set-add_self : (x : String) (xs : List String) → in_set x (add x xs) ≡ true
in_set-add_self x xs = ground (arith, (eq_iff x x).1 refl)

pub in_set-discard :
    (x y : String) (xs : List String)
    → str_eq x y ≡ false
    → in_set x xs ≡ true
    → in_set x (discard y xs) ≡ true
in_set-discard x y [] ne h = h
in_set-discard x y (z ∷ xs) ne h =
    ground (arith, eq_iff z x, eq_iff z y, eq_iff x y, in_set-discard x y xs)

pub IsSerial-pop : (id : String) (ops : List Operation) → IsSerial ops → IsSerial (pop id ops)
IsSerial-pop id [] h = tt
IsSerial-pop id (op ∷ ops) h = elim (Bool-cases (has_key operation_key id op)) [
  | inl e ↦ rw e (IsSerial-pop id ops h.1)
  | inr e ↦
      rw e (All-delete (IsFree op) (has_key operation_key id) ops h.0, IsSerial-pop id ops h.1)
]

session_free :
    (a b : Option String) (sessions : List String)
    → in_sessions a sessions ≡ false
    → ((s : String) → b ≡ some s → in_set s sessions ≡ true)
    → same_session a b ≡ false
session_free none b sessions free held = refl
session_free (some s) none sessions free held = refl
session_free (some s) (some t) sessions free held = ground (arith, eq_iff s t, held t refl)

target_free :
    (a b : Bool) (x y : String) (targets : List String)
    → a && in_set x targets ≡ false
    → (b ≡ true → in_set y targets ≡ true)
    → a && (b && str_eq x y) ≡ false
target_free false b x y targets free held = refl
target_free true false x y targets free held = refl
target_free true true x y targets free held = ground (arith, eq_iff x y, held refl)

-- An operation that is not blocked conflicts with none of those whose keys are held.
unblocked-IsFree :
    (op b : Operation) (d : Dispatcher)
    → serialization_blocked op d ≡ false
    → IsHeld d.active_sessions d.active_dangerous_targets b
    → IsFree op b
unfolding serialization_blocked
unblocked-IsFree op b d free held =
    elim (Bool-cases (in_sessions op.session_id d.active_sessions)) [
      | inl s ↦ absurd (false≢true (sym (rw s at free)))
      | inr s ↦ rw (session_free op.session_id b.session_id d.active_sessions s held.0) (
          target_free (is_dangerous op.kind) (is_dangerous b.kind) op.target_id b.target_id
            d.active_dangerous_targets (rw s at free) held.1)
    ]

pub IsUnique-pop :
    (id : String) (ops : List Operation)
    → IsUnique operation_key ops
    → IsUnique operation_key (pop id ops)
IsUnique-pop id ops u =
    rw (delete_where-filter (has_key operation_key id) ops)
      (IsUnique-filter operation_key (λ op. not (has_key operation_key id op)) ops u)

find-pop_self : (id : String) (ops : List Operation) → find operation_key id (pop id ops) ≡ none
find-pop_self id [] = refl
find-pop_self id (op ∷ ops) = ground (arith, find-pop_self id ops)

held_session :
    (s : String) (a : Option String) (sessions : List String)
    → in_set s sessions ≡ true
    → in_set s (add_session a sessions) ≡ true
held_session s none sessions h = h
held_session s (some t) sessions h = in_set-add s t sessions h

own_session :
    (s : String) (a : Option String) (sessions : List String)
    → a ≡ some s
    → in_set s (add_session a sessions) ≡ true
own_session s a sessions e = rw e (in_set-add_self s sessions)

-- Holding a claimed operation keeps the rules, if it was not blocked.
pub hold-Serial :
    (op : Operation) (d : Dispatcher)
    → serialization_blocked op d ≡ false
    → Serial d
    → Serial (hold op d)
unfolding hold
hold-Serial op d free inv = record {
  unique = (
    find-pop_self op.operation_id d.in_flight,
    IsUnique-pop op.operation_id d.in_flight inv.unique,
  );
  serial = (
    All-delete (IsFree op) (has_key operation_key op.operation_id) d.in_flight (
        All-mono (IsHeld d.active_sessions d.active_dangerous_targets) (IsFree op) d.in_flight
          (λ b held. unblocked-IsFree op b d free held) inv.held),
    IsSerial-pop op.operation_id d.in_flight inv.serial,
  );
  held = (
    (
      (λ s e. own_session s op.session_id d.active_sessions e),
      λ dangerous. rw dangerous (in_set-add_self op.target_id d.active_dangerous_targets),
    ),
    All-delete _ (has_key operation_key op.operation_id) d.in_flight (
        All-mono (IsHeld d.active_sessions d.active_dangerous_targets) _ d.in_flight
          (λ b held. (
            (λ s e. held_session s op.session_id d.active_sessions (held.0 s e)),
            λ dangerous. elim (Bool-cases (is_dangerous op.kind)) [
              | inl q ↦ rw q (
                  in_set-add b.target_id op.target_id d.active_dangerous_targets (held.1 dangerous))
              | inr q ↦ rw q (held.1 dangerous)
            ],
          ))
          inv.held),
  );
}
