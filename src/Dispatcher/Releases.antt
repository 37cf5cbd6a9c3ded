-- ===== src/Dispatcher/Releases.antt =====
-- `_release` of operations/dispatcher.py under the serialization rules.
use mathlib.Core.Bool.{false≢true}
use mathlib.Core.Path.{subst}
use mathlib.Core.Option.{some-injective}
use incidentlens.Common.{
  String, ◌≡◌, refl, sym, Bool, true, false, ◌&&◌, ◌||◌, Option, none, some, List, [], ◌∷◌, inl,
  inr, arith, All, All-mono2, Bool-cases, if◌then◌else◌, str_eq, eq_iff,
}
use incidentlens.Common.Sql.{All-delete, All-select_one}
use incidentlens.Common.Keyed.{string_key, has_key, find}
use incidentlens.Operation.Types.{Operation, operation_key}
use incidentlens.Operation.Recovery.{is_dangerous}
use incidentlens.Dispatcher.State.{Dispatcher, in_set, discard, pop, discard_session, release}
use incidentlens.Dispatcher.Serial.{
  IsFree, IsSerial, IsHeld, Serial, same_session, in_set-discard, IsSerial-pop, IsUnique-pop,
}

str_eq_sym : (x y : String) → str_eq x y ≡ false → str_eq y x ≡ false
str_eq_sym x y h = ground (arith, eq_iff x y, eq_iff y x)

same_session_sym : (a b : Option String) → same_session a b ≡ false → same_session b a ≡ false
same_session_sym none none h = refl
same_session_sym none (some t) h = refl
same_session_sym (some s) none h = refl
same_session_sym (some s) (some t) h = str_eq_sym s t h

same_target_sym :
    (a b : Bool) (x y : String) → a && (b && str_eq x y) ≡ false → b && (a && str_eq y x) ≡ false
same_target_sym false false x y h = refl
same_target_sym false true x y h = refl
same_target_sym true false x y h = refl
same_target_sym true true x y h = str_eq_sym x y h

neither : (a b : Bool) → a || b ≡ false → (a ≡ false) × (b ≡ false)
neither false b h = (refl, h)
neither true b h = absurd (false≢true (sym h))

conflicts_sym : (a b : Operation) → IsFree a b → IsFree b a
conflicts_sym a b h =
    let (s, t) = neither _ _ h in
    rw (same_session_sym a.session_id b.session_id s)
      (same_target_sym (is_dangerous a.kind) (is_dangerous b.kind) a.target_id b.target_id t)

-- The operation with an id conflicts with none of the others.
others-IsFree :
    (id : String) (op : Operation) (ops : List Operation)
    → IsSerial ops
    → find operation_key id ops ≡ some op
    → All (IsFree op) (pop id ops)
others-IsFree id op [] h e = tt
others-IsFree id op (x ∷ ops) h e = elim (Bool-cases (has_key operation_key id x)) [
  | inl k ↦
      let same : x ≡ op = some-injective x op (rw k at e) in
      rw k (
        All-delete (IsFree op) (has_key operation_key id) ops
          (subst (λ y. All (IsFree y) ops) same h.0))
  | inr k ↦
      let rest : find operation_key id ops ≡ some op = rw k at e in
      rw k (
        conflicts_sym x op (All-select_one (IsFree x) (has_key operation_key id) ops h.0 rest),
        others-IsFree id op ops h.1 rest,
      )
]

kept_session :
    (a b : Option String) (s : String) (sessions : List String)
    → same_session a b ≡ false
    → b ≡ some s
    → in_set s sessions ≡ true
    → in_set s (discard_session a sessions) ≡ true
kept_session none b s sessions free e h = h
kept_session (some x) b s sessions free e h =
    in_set-discard s x sessions (str_eq_sym x s (rw e at free)) h

kept_target :
    (a b : Bool) (x y : String) (targets : List String)
    → a && (b && str_eq x y) ≡ false
    → b ≡ true
    → in_set y targets ≡ true
    → in_set y (if a then discard x targets else targets) ≡ true
kept_target false b x y targets free e h = h
kept_target true b x y targets free e h =
    in_set-discard y x targets (str_eq_sym x y (rw e at free)) h

-- Releasing an operation in flight keeps the rules: the keys that it gives up are nobody else's.
pub release-Serial :
    (op : Operation) (d : Dispatcher)
    → find operation_key op.operation_id d.in_flight ≡ some op
    → Serial d
    → Serial (release op d)
unfolding release
release-Serial op d e inv = record {
  unique = IsUnique-pop op.operation_id d.in_flight inv.unique;
  serial = IsSerial-pop op.operation_id d.in_flight inv.serial;
  held =
      All-mono2 (IsHeld d.active_sessions d.active_dangerous_targets) (IsFree op) _
        (pop op.operation_id d.in_flight)
        (λ b held free.
          let (s, t) = neither _ _ free in
          (
            (λ x q. kept_session op.session_id b.session_id x d.active_sessions s q (held.0 x q)),
            λ dangerous.
                kept_target (is_dangerous op.kind) (is_dangerous b.kind) op.target_id b.target_id
                  d.active_dangerous_targets t dangerous (held.1 dangerous),
          ))
        (All-delete _ (has_key operation_key op.operation_id) d.in_flight inv.held)
        (others-IsFree op.operation_id op d.in_flight inv.serial e);
}
