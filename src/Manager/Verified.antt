-- ===== src/Manager/Verified.antt =====
-- `verify` of changes/manager.py: what it makes of a change set that is applied.
use incidentlens.Common.{
  Action, ℕ, String, Bool, true, false, some, Text, Result, ok, ◌>>◌, >>=-ok, ◌≡◌, refl, sym, ap,
  ◌∙◌, subst, Bool-cases, inl, inr, ◌⊎◌, if◌then◌else◌, pure,
}
use incidentlens.Common.Keyed.{find, find-key, string_key}
use incidentlens.Changes.Types.{
  ChangeSetStatus, applied, validated, verified, failed, is_terminal, valid_predecessors,
  ChangeSetRow, ChangeSet, ChangeDb, ChangeError,
}
use incidentlens.Changes.Store.{changeset_key, set_status, is_allowed, transition, get, from_row}
use incidentlens.Changes.Moves.{transition_done}
use incidentlens.Manager.Types.{Runtime, Backend, Config, Intent, World}
use incidentlens.Manager.Monad.{on_journal, emit, move_to}
use incidentlens.Manager.Rollback.{
  verify, verify_found, with_changeset, says_failed, is_applied, is_just_applied,
}

applied_cases : (s : ChangeSetStatus) → is_applied s ≡ true → (s ≡ applied) ⊎ (s ≡ validated)
applied_cases applied h = inl refl
applied_cases validated h = inr refl
applied_cases s h = absurd (cc h)

-- What `verify` makes of a change set: failed where the result says so, verified else.
abbrev pub verdict_of : Runtime → Text → ChangeSetStatus
verdict_of py result = if says_failed py result then failed else verified

-- The change set `id` is stored as `row`, and the remote files are those of `w`.
pub record IsAt {R A : Type 0} (id : String) (row : ChangeSetRow) (w u : World R A) : Type 0 where
  pub found : find changeset_key id u.journal_db.changesets ≡ some row
  pub files_are : u.files ≡ w.files

on_journal_ok :
    {R A X : Type 0} (call : Action ChangeDb ChangeError X) (w : World R A) {x : X} {db : ChangeDb}
    → call w.journal_db ≡ (ok x, db)
    → on_journal call w ≡ (ok x, record w { journal_db = db })
on_journal_ok {R} {A} {X} call w {x} {db} e =
    let ends : (call w.journal_db).0 ≡ ok x = ap (λ (o : Result ChangeError X × ChangeDb). o.0) e in
    let run : on_journal call w ≡ (ok x, record w { journal_db = (call w.journal_db).1 }) =
      rw (ends, on_journal) refl in
    run ∙ ap (λ (o : Result ChangeError X × ChangeDb). (ok x, record w { journal_db = o.1 })) e

module _ {R A : Type 0} (config : Config) (now : ℕ) where
  emit_ok :
      (id : String) (status : ChangeSetStatus) (created : Bool) (w : World R A)
      → (u : World R A) × (emit config id status created w ≡ (ok tt, u))
        × (u.journal_db ≡ w.journal_db)
        × (u.files ≡ w.files)
  unfolding emit
  emit_ok id status created w = elim (Bool-cases config.has_events) [
    | inl e ↦ ((emit config id status created w).1, rw e refl, rw e refl, rw e refl)
    | inr e ↦ (w, rw e refl, refl, refl)
  ]

  move_to-IsAt :
      (id : String) (target : ChangeSetStatus) (row : ChangeSetRow) (w v : World R A)
      → IsAt id row w v
      → is_terminal row.status ≡ false
      → is_allowed row.status (valid_predecessors target) ≡ true
      → (u : World R A) × (move_to config now id target v ≡ (ok tt, u))
        × IsAt id (set_status target now row) w u
  unfolding move_to
  move_to-IsAt id target row w v h open_still allowed =
      let (changeset, after, run, found) =
        transition_done id target now v.journal_db row h.found open_still allowed in
      let noted : World R A = record v { journal_db = after } in
      let (u, emitted, journal_is, files_are) = emit_ok id target false noted in
      let call : on_journal (transition id target now) v ≡ (ok changeset, noted) =
        on_journal_ok (transition id target now) v run in
      (
        u,
        >>=-ok (on_journal (transition id target now)) (λ _. emit config id target false) v call
            ∙ emitted,
        record {
          found = ap (λ db. find changeset_key id db.changesets) journal_is ∙ found;
          files_are = files_are ∙ h.files_are;
        },
      )

  validated_first :
      (id : String) (row : ChangeSetRow) (w : World R A)
      → is_applied row.status ≡ true
      → IsAt id row w w
      → (u : World R A) × (((if is_just_applied row.status
                then move_to config now id validated
                else pure tt)
              >> move_to config now id verified)
            w
          ≡ (ok tt, u))
        × IsAt id (set_status verified now row) w u
  validated_first id row w applies h = elim (applied_cases row.status applies) [
    | inl e ↦
        let (v, run, at) = move_to-IsAt id validated row w w h (rw e refl) (rw e refl) in
        let (u, last, end) =
          move_to-IsAt id verified (set_status validated now row) w v at refl refl in
        let first : (if is_just_applied row.status
                then move_to config now id validated
                else pure tt)
              w
            ≡ (ok tt, v) =
          rw e run in
        (
          u,
          >>=-ok (if is_just_applied row.status then move_to config now id validated else pure tt)
                (λ _. move_to config now id verified) w first
              ∙ last,
          end,
        )
    | inr e ↦
        let (u, last, end) = move_to-IsAt id verified row w w h (rw e refl) (rw e refl) in
        let first : (if is_just_applied row.status
                then move_to config now id validated
                else pure tt)
              w
            ≡ (ok tt, w) =
          rw e refl in
        (
          u,
          >>=-ok (if is_just_applied row.status then move_to config now id validated else pure tt)
                (λ _. move_to config now id verified) w first
              ∙ last,
          end,
        )
  ]

  verify_found_lem :
      (py : Runtime) (backend : Backend R) (consume : String → Intent → A → Bool × A)
      (result : Text) (changeset : ChangeSet) (row : ChangeSetRow) (w : World R A)
      → is_applied row.status ≡ true
      → changeset.status ≡ row.status
      → IsAt changeset.changeset_id row w w
      → (u : World R A) × (verify_found py backend config now consume result changeset w
          ≡ (ok tt, u))
        × IsAt changeset.changeset_id (set_status (verdict_of py result) now row) w u
  verify_found_lem py backend consume result changeset row w applies same h =
      elim (Bool-cases (says_failed py result)) [
        | inl e ↦ elim (applied_cases row.status applies) [
          | inl s ↦
              rw (e, verify_found, verdict_of)
                (move_to-IsAt changeset.changeset_id failed row w w h (rw s refl) (rw s refl))
          | inr s ↦
              rw (e, verify_found, verdict_of)
                (move_to-IsAt changeset.changeset_id failed row w w h (rw s refl) (rw s refl))
        ]
        | inr e ↦
            rw (e, verify_found, verdict_of, same)
              (validated_first changeset.changeset_id row w applies h)
      ]

  -- A change set that is stored as applied or validated can always be verified: `verify` returns,
  -- leaves the remote files alone, and the change set is then failed, where the result says so, and
  -- verified else, with nothing else of its row changed but the time of its update.
  pub verify_lem :
      (py : Runtime) (backend : Backend R) (consume : String → Intent → A → Bool × A) (id : String)
      (result : Text) (row : ChangeSetRow) (w : World R A)
      → find changeset_key id w.journal_db.changesets ≡ some row
      → is_applied row.status ≡ true
      → (u : World R A) × (verify py backend config now consume id result w ≡ (ok tt, u))
        × IsAt id (set_status (verdict_of py result) now row) w u
  unfolding verify get
  verify_lem py backend consume id result row w found applies =
      let same = find-key changeset_key id w.journal_db.changesets found in
      let at : IsAt row.changeset_id row w w = record {
        found =
            subst (λ k. find changeset_key k w.journal_db.changesets ≡ some row) (sym same) found;
        files_are = refl;
      } in
      let (u, run, end) =
        verify_found_lem py backend consume result (from_row w.journal_db.file_changes row) row w
          applies refl at in
      (
        u,
        rw (found, with_changeset, applies) run,
        subst (λ k. IsAt k (set_status (verdict_of py result) now row) w u) same end,
      )
