-- ===== src/Manager/Ends.antt =====
-- The ends of single calls of changes/manager.py.
use incidentlens.Common.{
  Bool, true, false, some, Result, ok, err, Action, ◌≡◌, refl, sym, ap, ◌∙◌, Option-cases, inl, inr,
}
use incidentlens.Policy.Paths.{PurePosixPath}
use incidentlens.Manager.Types.{RemoteError, World, PathDict, get_item, Failure, remote}
use incidentlens.Manager.Monad.{Step, on_files, item, attempt}
use incidentlens.Manager.Frames.{Result-cases, ok_err, Keeps}

abbrev as_result : {X : Type 0} → Result Failure X → Result RemoteError X
as_result (ok x) = ok x
as_result (err e) = err RemoteError.other_error

module _ {R A : Type 0} where
  pub item_ok :
      {V : Type 0} (p : PurePosixPath) (dict : PathDict V) (w : World R A) {v : V}
      → get_item p dict ≡ some v
      → item p dict w ≡ (ok v, w)
  item_ok p dict w e = rw (e, item) refl

  pub on_files_ok :
      {X : Type 0} (call : Action R RemoteError X) (w : World R A) {x : X} {u : World R A}
      → on_files call w ≡ (ok x, u)
      → ((call w.files).0 ≡ ok x) × (u.files ≡ (call w.files).1) × (u.progress ≡ w.progress)
  on_files_ok {X} call w {x} {u} h = elim (Result-cases (call w.files).0) [
    | inl (y, e) ↦
        let run : on_files call w ≡ (ok y, record w { files = (call w.files).1 }) =
          rw (e, on_files) refl in
        let same = sym run ∙ h in
        (
          e ∙ ap (λ (o : Result Failure X × World R A). as_result o.0) same,
          sym (ap (λ (o : Result Failure X × World R A). o.1.files) same),
          sym (ap (λ (o : Result Failure X × World R A). o.1.progress) same),
        )
    | inr (y, e) ↦
        let run : on_files call w ≡ (err (remote y), record w { files = (call w.files).1 }) =
          rw (e, on_files) refl in
        absurd (ok_err (sym run ∙ h))
  ]

  pub attempt_ok :
      (body : Step R A (Unit {0})) (w : World R A) {u : World R A}
      → attempt body w ≡ (ok true, u)
      → body w ≡ (ok tt, u)
  attempt_ok body w {u} h = elim (Result-cases (body w).0) [
    | inl (x, e) ↦
        let run : attempt body w ≡ (ok true, (body w).1) = rw (e, attempt) refl in
        ap (λ r. (r, (body w).1)) e
        ∙ ap (λ (o : Result Failure Bool × World R A). (ok tt, o.1)) (sym run ∙ h)
    | inr (x, e) ↦
        let run : attempt body w ≡ (ok false, (body w).1) = rw (e, attempt) refl in
        absurd (cc (ap (λ (o : Result Failure Bool × World R A). o.0) (sym run ∙ h)))
  ]

  pub on_files_state :
      {X : Type 0} (call : Action R RemoteError X) (w : World R A)
      → (on_files call w).1.files ≡ (call w.files).1
  on_files_state call w = elim (Result-cases (call w.files).0) [
    | inl (x, e) ↦ rw (e, on_files) refl
    | inr (x, e) ↦ rw (e, on_files) refl
  ]

  pub attempt_state : (body : Step R A (Unit {0})) (w : World R A) → (attempt body w).1 ≡ (body w).1
  attempt_state body w = elim (Result-cases (body w).0) [
    | inl (x, e) ↦ rw (e, attempt) refl
    | inr (x, e) ↦ rw (e, attempt) refl
  ]

  pub item-Keeps :
      {V : Type 0} (p : PurePosixPath) (dict : PathDict V) → Keeps (item {R = R} {A = A} p dict)
  item-Keeps p dict w = elim (Option-cases (get_item p dict)) [
    | inl e ↦ rw (e, item) (refl, refl)
    | inr (v, e) ↦ rw (e, item) (refl, refl)
  ]
