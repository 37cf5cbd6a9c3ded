-- ===== src/Manager/Noted.antt =====
-- What changes/manager.py notes of a rename in its locals and in the journal.
use incidentlens.Common.{
  ℕ, true, some, List, [], ◌∷◌, ◌++◌, ◌>>=◌, ◌==◌, length, ◌≡◌, refl, Bool-cases, inl, inr,
}
use incidentlens.Policy.Paths.{PurePosixPath}
use incidentlens.Changes.Types.{applied}
use incidentlens.Manager.Types.{
  Runtime, Backend, Config, FileMutation, ChangeSetRequest, World, Progress,
}
use incidentlens.Manager.Replace.{note_applied, first_applied}
use incidentlens.Manager.Monad.{Step, item, update_file, no_updates}
use incidentlens.Manager.Frames.{Keeps, bind-Keeps, update_file-Keeps, move_to-Keeps}
use incidentlens.Manager.Ends.{item-Keeps}
use incidentlens.Manager.Replacing.{applied_at}

module _ {R A : Type 0} (py : Runtime) (backend : Backend R) (config : Config) (now : ℕ)
    (request : ChangeSetRequest) where
  first_applied-Keeps :
      (paths : List PurePosixPath)
      → Keeps (first_applied {R = R} {A = A} py backend config now request paths)
  first_applied-Keeps paths w = elim (Bool-cases (length paths == 1)) [
    | inl e ↦ rw (e, first_applied) (move_to-Keeps config now request.changeset_id applied w)
    | inr e ↦ rw (e, first_applied) (refl, refl)
  ]

  abbrev after_note : PurePosixPath → FileMutation → Progress → Step R A (Unit {0})
  after_note p f l = item p l.validation_results >>= λ validation.
      update_file request.changeset_id f.operation_id
        (record no_updates { applied = some true; validation_result = some validation })
      >>= λ _. first_applied py backend config now request (l.applied_files ++ p ∷ [])

  after_note-Keeps :
      (p : PurePosixPath) (f : FileMutation) (l : Progress) → Keeps (after_note p f l)
  after_note-Keeps p f l =
      bind-Keeps (item p l.validation_results)
        (λ validation.
          update_file request.changeset_id f.operation_id
            (record no_updates { applied = some true; validation_result = some validation })
          >>= λ _. first_applied py backend config now request (l.applied_files ++ p ∷ []))
        (item-Keeps p l.validation_results)
        (λ validation.
          bind-Keeps
            (update_file request.changeset_id f.operation_id
              (record no_updates { applied = some true; validation_result = some validation }))
            (λ _. first_applied py backend config now request (l.applied_files ++ p ∷ []))
            (update_file-Keeps request.changeset_id f.operation_id
              (record no_updates { applied = some true; validation_result = some validation }))
            (λ _. first_applied-Keeps (l.applied_files ++ p ∷ [])))

  -- Whatever the journal says, a file that was renamed is applied.
  pub note_applied_state :
      (p : PurePosixPath) (f : FileMutation) (l : Progress) (w : World R A)
      → ((note_applied py backend config now request p f l w).1.files ≡ w.files)
        × ((note_applied py backend config now request p f l w).1.progress
            ≡ applied_at p w.progress)
  note_applied_state p f l w =
      after_note-Keeps p f l (record w { progress = applied_at p w.progress })
