-- ===== src/Manager/Guards.antt =====
-- What apply and rollback of changes/manager.py ask for before they change remote files.
use incidentlens.Common.{
  ℕ, String, Bool, true, false, Option, none, some, is_some, List, [], ◌∷◌, map, filter, Text,
  Result, ok, err, ◌≡◌, refl, Bool-cases, Option-cases, inl, inr, ◌⊎◌, not, ◌&&◌, ◌>>◌, pure,
  >>=-ok, >>=-err, if◌then◌else◌, subst, sym, ◌∙◌,
}
use incidentlens.Policy.Paths.{PurePosixPath}
use incidentlens.Changes.Types.{ChangeSet, rolled_back}
use incidentlens.Changes.Vault.{Bytes}
use incidentlens.Changes.Store.{get}
use incidentlens.Manager.Types.{
  Runtime, Backend, Config, Intent, FileMutation, ChangeSetRequest, files_of, World, Failure,
  problem, wrong_status, changeset_missing, approval_required, approval, rollback_intent,
}
use incidentlens.Manager.Paths.{is_protected_path}
use incidentlens.Manager.Monad.{consume_with, Step, of_result, fails, for_each, move_to}
use incidentlens.Manager.Frames.{bind_state, Result-cases}
use incidentlens.Manager.Replace.{protected_paths_intent}
use incidentlens.Manager.Apply.{resolve_transport_for}
use incidentlens.Manager.Rollback.{
  rollback, is_applied, interrupts_service, rollback_found, with_changeset, consume_given,
  rollback_file,
}
use mathlib.Core.List.{reverse}
use incidentlens.Manager.Spares.{Spares, for_each-Spares, move_to-Spares, rollback_file-Spares}

module _ {A : Type 0} (config : Config) (consume : String → Intent → A → Bool × A) where
  -- What the approvals are before and after a rollback: with an approval service, the approval of
  -- exactly this rollback was there, and is consumed.
  abbrev pub IsSpent : Option String → ChangeSet → A → A → Type 0
  IsSpent none changeset before after = after ≡ before
  IsSpent (some id) changeset before after =
      if config.has_approvals
      then (((consume id
              (rollback_intent changeset.changeset_id changeset.target_id changeset.service_name)
              before).0
            ≡ true)
          × (after
              ≡ (consume id
                  (rollback_intent changeset.changeset_id changeset.target_id
                    changeset.service_name)
                  before).1))
      else (after ≡ before)

module _ {R A : Type 0} (py : Runtime) (config : Config)
    (consume : String → Intent → A → Bool × A) where
  -- The change set may be rolled back, and the approval is spent.
  pub record IsRolling (changeset_id : String) (approval_id : Option String) (w u : World R A)
      : Type 0 where
    pub changeset : ChangeSet
    pub found : get changeset_id w.journal_db ≡ some changeset
    pub in_status : is_applied changeset.status ≡ true
    pub approved : (interrupts_service py config changeset ≡ false) ⊎ (is_some approval_id ≡ true)
    pub spent : IsSpent config consume approval_id changeset w.approvals u.approvals

-- The run raised, and left everything but the approvals as it was.
abbrev pub Stopped : {R A : Type 0} → Result Failure (Unit {0}) × World R A → World R A → Type 0
Stopped {R} {A} run w =
    (e : Failure) × (approvals : A) × (run ≡ (err e, record w { approvals = approvals }))

module _ {R A : Type 0} (py : Runtime) (backend : Backend R) (config : Config) (now : ℕ)
    (consume : String → Intent → A → Bool × A) where
  -- The run went on, with the approval spent.
  abbrev Passed :
      Option String → ChangeSet → Result Failure (Unit {0}) × World R A → World R A → Type 0
  Passed approval_id changeset run w =
      (approvals : A) × (run ≡ (ok tt, record w { approvals = approvals }))
      × IsSpent config consume approval_id changeset w.approvals approvals

  consume_given_lem :
      (approval_id : Option String) (changeset : ChangeSet) (w : World R A)
      → Stopped (consume_given py backend config now consume approval_id changeset w) w
        ⊎ Passed approval_id changeset
            (consume_given py backend config now consume approval_id changeset w)
            w
  consume_given_lem none changeset w = inr (w.approvals, refl, refl)
  consume_given_lem (some id) changeset w = elim (Bool-cases config.has_approvals) [
    | inr e ↦ inr (w.approvals, rw e refl, rw e refl)
    | inl e ↦
        let asked =
          consume id
            (rollback_intent changeset.changeset_id changeset.target_id changeset.service_name)
            w.approvals in
        elim (Bool-cases asked.0) [
          | inl k ↦ inr (asked.1, rw (e, k, consume_with) refl, rw e (k, refl))
          | inr k ↦ inl (approval, asked.1, rw (e, k, consume_with) refl)
        ]
  ]

  abbrev checks : Option String → ChangeSet → Step R A (Unit {0})
  checks approval_id changeset =
      (if interrupts_service py config changeset && not (is_some approval_id)
        then fails approval_required
        else pure tt)
      >> of_result (resolve_transport_for config changeset.project_id changeset.target_id)

  -- The checks before the approval is asked for change nothing.
  checks_lem :
      (approval_id : Option String) (changeset : ChangeSet) (w : World R A)
      → ((e : Failure) × (checks approval_id changeset w ≡ (err e, w)))
        ⊎ ((checks approval_id changeset w ≡ (ok tt, w))
            × ((interrupts_service py config changeset ≡ false) ⊎ (is_some approval_id ≡ true)))
  checks_lem approval_id changeset w = elim (Bool-cases (interrupts_service py config changeset)) [
    | inr i ↦ transport (rw i refl) (inl i)
    | inl i ↦ elim (Bool-cases (is_some approval_id)) [
      | inr a ↦ inl (problem approval_required, rw (i, a) refl)
      | inl a ↦ transport (rw (i, a) refl) (inr a)
    ]
  ]
    where
      transport :
          (interrupts_service py config changeset && not (is_some approval_id) ≡ false)
          → (interrupts_service py config changeset ≡ false) ⊎ (is_some approval_id ≡ true)
          → ((e : Failure) × (checks approval_id changeset w ≡ (err e, w)))
            ⊎ ((checks approval_id changeset w ≡ (ok tt, w))
                × ((interrupts_service py config changeset ≡ false) ⊎ (is_some approval_id ≡ true)))
      transport let_through why =
          elim (Result-cases
            (resolve_transport_for config changeset.project_id changeset.target_id)) [
              | inl (x, e) ↦ inr (rw (let_through, e) refl, why)
              | inr (x, e) ↦ inl (x, rw (let_through, e) refl)
            ]

  abbrev restores : ChangeSet → Step R A (Unit {0})
  restores changeset =
      for_each (rollback_file py backend config now consume changeset.changeset_id)
        (reverse changeset.files)

  -- What follows the approval spends nothing.
  restores-Spares : (changeset : ChangeSet) → Spares (restores changeset)
  restores-Spares changeset =
      for_each-Spares (rollback_file py backend config now consume changeset.changeset_id)
        (reverse changeset.files)
        (rollback_file-Spares py backend config now consume changeset.changeset_id)

  -- The end of a rollback, by the end of its first part.
  found_stopped :
      (approval_id : Option String) (changeset : ChangeSet) (w v : World R A) (e : Failure)
      → (checks approval_id changeset
            >> consume_given py backend config now consume approval_id changeset)
          w
        ≡ (err e, v)
      → rollback_found py backend config now consume approval_id changeset w ≡ (err e, v)
  found_stopped approval_id changeset w v e run =
      >>=-err
        (checks approval_id changeset
          >> consume_given py backend config now consume approval_id changeset
          >> restores changeset)
        (λ _. move_to config now changeset.changeset_id rolled_back) w
        (>>=-err
          (checks approval_id changeset
            >> consume_given py backend config now consume approval_id changeset)
          (λ _. restores changeset) w run)

  found_passed :
      (approval_id : Option String) (changeset : ChangeSet) (w v : World R A)
      → (checks approval_id changeset
            >> consume_given py backend config now consume approval_id changeset)
          w
        ≡ (ok tt, v)
      → (rollback_found py backend config now consume approval_id changeset w).1.approvals
        ≡ v.approvals
  found_passed approval_id changeset w v run =
      bind_state (λ u. u.approvals ≡ v.approvals) (gate >> restores changeset) (λ _. end) w
        (λ e q. restored)
        (λ x q.
          move_to-Spares config now changeset.changeset_id rolled_back
            ((gate >> restores changeset) w).1
          ∙ restored)
    where
      gate : Step R A (Unit {0})
      gate =
          checks approval_id changeset
          >> consume_given py backend config now consume approval_id changeset

      end : Step R A (Unit {0})
      end = move_to config now changeset.changeset_id rolled_back

      restored : ((gate >> restores changeset) w).1.approvals ≡ v.approvals
      restored =
          subst (λ (run : Result Failure (Unit {0}) × World R A). run.1.approvals ≡ v.approvals)
            (sym (>>=-ok gate (λ _. restores changeset) w run)) (restores-Spares changeset v)

  gate_lem :
      (approval_id : Option String) (changeset : ChangeSet) (w : World R A)
      → Stopped (rollback_found py backend config now consume approval_id changeset w) w
        ⊎ (((interrupts_service py config changeset ≡ false) ⊎ (is_some approval_id ≡ true))
            × IsSpent config consume approval_id changeset w.approvals
                (rollback_found py backend config now consume approval_id changeset w).1.approvals)
  gate_lem approval_id changeset w = elim (checks_lem approval_id changeset w) [
    | inl (e, run) ↦ inl (
      e,
      w.approvals,
      found_stopped approval_id changeset w w e
          (>>=-err (checks approval_id changeset) (λ _. given) w run),
    )
    | inr (run, why) ↦ elim (consume_given_lem approval_id changeset w) [
      | inl (e, approvals, asked) ↦
          inl (e, approvals, found_stopped approval_id changeset w _ e (after run ∙ asked))
      | inr (approvals, asked, spent) ↦ inr (
        why,
        subst (IsSpent config consume approval_id changeset w.approvals)
            (sym (found_passed approval_id changeset w _ (after run ∙ asked))) spent,
      )
    ]
  ]
    where
      given : Step R A (Unit {0})
      given = consume_given py backend config now consume approval_id changeset

      after :
          checks approval_id changeset w ≡ (ok tt, w)
          → (checks approval_id changeset >> given) w ≡ given w
      after run = >>=-ok (checks approval_id changeset) (λ _. given) w run

  -- A rollback raises and leaves everything but the approvals as it was, unless the change set is
  -- there, is applied or validated, and does not interrupt a service or comes with an approval;
  -- an approval that it comes with was then, where there is an approval service, accepted for
  -- exactly this rollback (its change set, its target and its service), and the approvals that the
  -- rollback ends with are those after that one consumption, else those that it began with.
  pub rollback-IsRolling :
      (changeset_id : String) (approval_id : Option String) (w : World R A)
      → Stopped (rollback py backend config now consume changeset_id approval_id w) w
        ⊎ IsRolling py config consume changeset_id approval_id w
            (rollback py backend config now consume changeset_id approval_id w).1
  unfolding rollback
  rollback-IsRolling changeset_id approval_id w =
      elim (Option-cases (get changeset_id w.journal_db)) [
        | inl e ↦ inl (problem changeset_missing, w.approvals, rw (e, with_changeset) refl)
        | inr (changeset, e) ↦ elim (Bool-cases (is_applied changeset.status)) [
          | inr s ↦ inl (problem wrong_status, w.approvals, rw (e, with_changeset, s) refl)
          | inl s ↦ elim (gate_lem approval_id changeset w) [
            | inl stopped ↦ rw (e, with_changeset, s) (inl stopped)
            | inr (why, spent) ↦ inr (record {
              changeset = changeset;
              found = e;
              in_status = s;
              approved = why;
              spent = rw (e, with_changeset, s) spent;
            })
          ]
        ]
      ]

module _ {R A : Type 0} (py : Runtime) (backend : Backend R) (config : Config) (now : ℕ) (ts : Text)
    (key : Bytes) (nonce : FileMutation → Bytes) (consume : String → Intent → A → Bool × A)
    (request : ChangeSetRequest) where
  -- The files whose change is to be approved.
  abbrev pub to_approve : List PurePosixPath → List FileMutation
  to_approve protected_paths =
      filter (λ file_req. is_protected_path py file_req.path protected_paths) (files_of request)

  abbrev intent_of : FileMutation → List FileMutation → Intent
  intent_of first rest =
      protected_paths_intent py request.changeset_id first.target_id first.service
        (map (λ (file_req : FileMutation). file_req.path) (first ∷ rest))

  -- What the approvals are before and after: the approval of all of the files at once was there, and
  -- is consumed; where there are no such files, nothing is.
  abbrev pub IsConsumed : Option String → List FileMutation → A → A → Type 0
  IsConsumed approval_id [] before after = after ≡ before
  IsConsumed approval_id (first ∷ rest) before after =
      (id : String) × (approval_id ≡ some id)
      × ((consume id (intent_of first rest) before).0 ≡ true)
      × (after ≡ (consume id (intent_of first rest) before).1)
