-- ===== src/Manager/Frames.antt =====
-- What the journal's calls of changes/manager.py leave alone, and the ends of a bind.
use incidentlens.Common.{
  ℕ, String, Bool, false, Result, ok, err, Action, pure, ◌>>=◌, >>=-ok, >>=-err, ◌≡◌, refl, subst,
  sym, ap, ◌∙◌, Bool-cases, inl, inr, ◌⊎◌,
}
use incidentlens.Changes.Types.{ChangeSetStatus, ChangeDb, ChangeError}
use incidentlens.Changes.Files.{FileUpdates, update_file_change}
use incidentlens.Changes.Store.{transition}
use incidentlens.Manager.Types.{Config, World}
use incidentlens.Manager.Monad.{Step, on_journal, emit, move_to, update_file}

pub Result-cases {ℓ κ} :
    {E : Type ℓ} {X : Type κ} (r : Result E X) → ((x : X) × (r ≡ ok x)) ⊎ ((e : E) × (r ≡ err e))
Result-cases (ok x) = inl (x, refl)
Result-cases (err e) = inr (e, refl)

pub ok_err :
    {S E Y : Type 0} {e : E} {y : Y} {s t : S} → ◌≡◌ {A = Result E Y × S} (err e, s) (ok y, t) → ⊥
ok_err h = cc h

module _ {S E X Y : Type 0} where
  -- A bind that ends well: both calls did.
  pub bind_ok :
      (m : Action S E X) (f : X → Action S E Y) (s : S) {y : Y} {t : S}
      → (m >>= f) s ≡ (ok y, t)
      → (x : X) × (u : S) × (m s ≡ (ok x, u)) × (f x u ≡ (ok y, t))
  bind_ok m f s {y} {t} h = elim (Result-cases (m s).0) [
    | inl (x, e) ↦
        let run : m s ≡ (ok x, (m s).1) = ap (λ r. (r, (m s).1)) e in
        (x, (m s).1, run, sym (>>=-ok m f s run) ∙ h)
    | inr (e, q) ↦
        let run : m s ≡ (err e, (m s).1) = ap (λ r. (r, (m s).1)) q in
        absurd (ok_err (sym (>>=-err m f s run) ∙ h))
  ]

  -- The state after a bind, by the end of the first call.
  pub bind_state :
      (P : S → Type 0) (m : Action S E X) (f : X → Action S E Y) (s : S)
      → ((e : E) → (m s).0 ≡ err e → P (m s).1)
      → ((x : X) → (m s).0 ≡ ok x → P (f x (m s).1).1)
      → P ((m >>= f) s).1
  bind_state P m f s failed done = elim (Result-cases (m s).0) [
    | inl (x, e) ↦
        let run : m s ≡ (ok x, (m s).1) = ap (λ r. (r, (m s).1)) e in
        subst (λ (o : Result E Y × S). P o.1) (sym (>>=-ok m f s run)) (done x e)
    | inr (e, q) ↦
        let run : m s ≡ (err e, (m s).1) = ap (λ r. (r, (m s).1)) q in
        subst (λ (o : Result E Y × S). P o.1) (sym (>>=-err m f s run)) (failed e q)
  ]

module _ {R A : Type 0} where
  -- The call leaves the remote files and the locals of the apply alone.
  abbrev pub Keeps : {X : Type 0} → Step R A X → Type 0
  Keeps m = (w : World R A) → ((m w).1.files ≡ w.files) × ((m w).1.progress ≡ w.progress)

  pub on_journal-Keeps :
      {X : Type 0} (call : Action ChangeDb ChangeError X) → Keeps (on_journal call)
  on_journal-Keeps call w = elim (Result-cases (call w.journal_db).0) [
    | inl (x, e) ↦ rw (e, on_journal) (refl, refl)
    | inr (x, e) ↦ rw (e, on_journal) (refl, refl)
  ]

  pub bind-Keeps :
      {X Y : Type 0} (m : Step R A X) (f : X → Step R A Y)
      → Keeps m
      → ((x : X) → Keeps (f x))
      → Keeps (m >>= f)
  bind-Keeps m f first later w =
      bind_state (λ u. (u.files ≡ w.files) × (u.progress ≡ w.progress)) m f w (λ e q. first w)
        (λ x q. ((later x (m w).1).0 ∙ (first w).0, (later x (m w).1).1 ∙ (first w).1))

  pub update_file-Keeps :
      (changeset_id file_id : String) (u : FileUpdates)
      → Keeps (update_file {R = R} {A = A} changeset_id file_id u)
  unfolding update_file
  update_file-Keeps changeset_id file_id u =
      bind-Keeps (on_journal (update_file_change changeset_id file_id u)) (λ _. pure tt)
        (on_journal-Keeps (update_file_change changeset_id file_id u)) (λ x w. (refl, refl))

  pub emit-Keeps :
      (config : Config) (changeset_id : String) (status : ChangeSetStatus) (created : Bool)
      → Keeps (emit {R = R} {A = A} config changeset_id status created)
  unfolding emit
  emit-Keeps config changeset_id status created w = elim (Bool-cases config.has_events) [
    | inl e ↦ rw e (refl, refl)
    | inr e ↦ rw e (refl, refl)
  ]

  pub move_to-Keeps :
      (config : Config) (now : ℕ) (changeset_id : String) (status : ChangeSetStatus)
      → Keeps (move_to {R = R} {A = A} config now changeset_id status)
  unfolding move_to
  move_to-Keeps config now changeset_id status =
      bind-Keeps (on_journal (transition changeset_id status now))
        (λ _. emit config changeset_id status false)
        (on_journal-Keeps (transition changeset_id status now))
        (λ x. emit-Keeps config changeset_id status false)
