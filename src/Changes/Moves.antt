-- ===== src/Changes/Moves.antt =====
-- Calls of ChangeSetStore.transition, one after the other, on any change sets.
use incidentlens.Common.{
  ℕ, String, Bool, true, false, ◌&&◌, Option, some, List, [], ◌∷◌, if◌then◌else◌, str_eq, Result,
  ok, err, ◌≡◌, refl, arith, Bool-cases, inl, inr, ◌⊎◌, subst,
}
use incidentlens.Common.Keyed.{string_key, find, find-update, find-key, has_key}
use incidentlens.Changes.Types.{
  ChangeSetStatus, ChangeSetRow, ChangeDb, ChangeError, ChangeSet, is_terminal, valid_predecessors,
}
use incidentlens.Changes.Store.{
  changeset_key, get, from_row, check_transition, is_allowed, set_status, write_status, transition,
}
use incidentlens.Changes.Life.{after, IsLife, in_order, IsMove, allowed-IsMove, IsLife-move}

-- A call of `transition`.
pub record TransitionCall : Type 0 where
  pub changeset_id : String
  pub target_status : ChangeSetStatus
  pub now : ℕ

abbrev succeeded : {A : Type 0} → Result ChangeError A → Bool
succeeded (ok _) = true
succeeded (err _) = false

abbrev call : TransitionCall → ChangeDb → Result ChangeError (Option ChangeSet) × ChangeDb
call c db = transition c.changeset_id c.target_status c.now db

-- Whether the call moved the change set `id`.
abbrev moves : String → TransitionCall → ChangeDb → Bool
moves id c db = str_eq c.changeset_id id && succeeded (call c db).0

abbrev pub perform_all : List TransitionCall → ChangeDb → ChangeDb
perform_all [] db = db
perform_all (c ∷ calls) db = perform_all calls (call c db).1

-- The states that the calls moved the change set `id` to, one by one.
abbrev pub moves_of : String → List TransitionCall → ChangeDb → List ChangeSetStatus
moves_of id [] db = []
moves_of id (c ∷ calls) db =
    let rest = moves_of id calls (call c db).1 in
    if moves id c db then c.target_status ∷ rest else rest

-- What one call does to the row of the change set `id`.
data IsStep (id : String) (c : TransitionCall) (db : ChangeDb) (row : ChangeSetRow) : Type 0 where
  stays :
      {next : ChangeSetRow}
      → moves id c db ≡ false
      → find changeset_key id (call c db).1.changesets ≡ some next
      → next.status ≡ row.status
      → IsStep id c db row
  goes :
      {next : ChangeSetRow}
      → moves id c db ≡ true
      → find changeset_key id (call c db).1.changesets ≡ some next
      → next.status ≡ c.target_status
      → IsMove row.status c.target_status
      → IsStep id c db row

Result-cases : (r : Result ChangeError (Unit {0})) → (r ≡ ok tt) ⊎ ((e : ChangeError) × (r ≡ err e))
Result-cases (ok tt) = inl refl
Result-cases (err e) = inr (e, refl)

check-IsMove :
    (target : ChangeSetStatus) (changeset : ChangeSet)
    → check_transition target (some changeset) ≡ ok tt
    → IsMove changeset.status target
check-IsMove target changeset h = elim (Bool-cases (is_terminal changeset.status)) [
  | inl e ↦ absurd (cc (rw e at h))
  | inr e ↦ elim (Bool-cases (is_allowed changeset.status (valid_predecessors target))) [
    | inl k ↦ allowed-IsMove changeset.status target e k
    | inr k ↦ absurd (cc (rw (e, k) at h))
  ]
]

refused_call :
    (c : TransitionCall) (db : ChangeDb) {e : ChangeError}
    → check_transition c.target_status (get c.changeset_id db) ≡ err e
    → call c db ≡ (err e, db)
unfolding transition
refused_call c db h = rw h refl

done_call :
    (c : TransitionCall) (db : ChangeDb)
    → check_transition c.target_status (get c.changeset_id db) ≡ ok tt
    → call c db ≡ (
      ok (get c.changeset_id (write_status c.changeset_id c.target_status c.now db)),
      write_status c.changeset_id c.target_status c.now db,
    )
unfolding transition
done_call c db h = rw h refl

-- The row of a change set after the `UPDATE` for another one, and for itself.
module _ (id : String) (c : TransitionCall) (db : ChangeDb) (row : ChangeSetRow) where
  abbrev written : ChangeDb
  written = write_status c.changeset_id c.target_status c.now db

  other_row :
      find changeset_key id db.changesets ≡ some row
      → str_eq c.changeset_id id ≡ false
      → find changeset_key id written.changesets ≡ some row
  other_row found e =
      let updated =
        find-update changeset_key id (has_key changeset_key c.changeset_id)
          (set_status c.target_status c.now) db.changesets (λ r. refl) in
      let key = find-key changeset_key id db.changesets found in
      rw (updated, found)
        (ground (
          arith,
          key,
          string_key.same_iff row.changeset_id c.changeset_id,
          string_key.same_iff c.changeset_id id,
        ))

  own_row :
      find changeset_key id db.changesets ≡ some row
      → str_eq c.changeset_id id ≡ true
      → find changeset_key id written.changesets ≡ some (set_status c.target_status c.now row)
  own_row found e =
      let updated =
        find-update changeset_key id (has_key changeset_key c.changeset_id)
          (set_status c.target_status c.now) db.changesets (λ r. refl) in
      let key = find-key changeset_key id db.changesets found in
      rw (updated, found)
        (ground (
          arith,
          key,
          string_key.same_iff row.changeset_id c.changeset_id,
          string_key.same_iff c.changeset_id id,
        ))

  own-IsMove :
      find changeset_key id db.changesets ≡ some row
      → str_eq c.changeset_id id ≡ true
      → check_transition c.target_status (get c.changeset_id db) ≡ ok tt
      → IsMove row.status c.target_status
  unfolding get
  own-IsMove found e h =
      check-IsMove c.target_status (from_row db.file_changes row)
        (rw ((string_key.same_iff c.changeset_id id).0 e, found) at h)

  call-IsStep : find changeset_key id db.changesets ≡ some row → IsStep id c db row
  call-IsStep found =
      elim (Result-cases (check_transition c.target_status (get c.changeset_id db))) [
        | inr (e, h) ↦
            let run = refused_call c db h in
            stays {next = row} (rw run (ground arith)) (rw run found) refl
        | inl h ↦
            let run = done_call c db h in
            elim (Bool-cases (str_eq c.changeset_id id)) [
              | inr e ↦ stays {next = row} (rw (run, e) refl) (rw run (other_row found e)) refl
              | inl e ↦
                  goes {next = set_status c.target_status c.now row} (rw (run, e) refl)
                    (rw run (own_row found e)) refl (own-IsMove found e h)
            ]
      ]

allowed-check :
    (target : ChangeSetStatus) (changeset : ChangeSet)
    → is_terminal changeset.status ≡ false
    → is_allowed changeset.status (valid_predecessors target) ≡ true
    → check_transition target (some changeset) ≡ ok tt
allowed-check target changeset e k = rw (e, k) refl

-- A transition that is allowed is made, and the row is found with the new state.
pub transition_done :
    (id : String) (target : ChangeSetStatus) (now : ℕ) (db : ChangeDb) (row : ChangeSetRow)
    → find changeset_key id db.changesets ≡ some row
    → is_terminal row.status ≡ false
    → is_allowed row.status (valid_predecessors target) ≡ true
    → (changeset : Option ChangeSet) × (after : ChangeDb) × (transition id target now db
        ≡ (ok changeset, after))
      × (find changeset_key id after.changesets ≡ some (set_status target now row))
unfolding get
transition_done id target now db row found open_still allowed =
    let c : TransitionCall = record { changeset_id = id; target_status = target; now = now } in
    let checked : check_transition target (get id db) ≡ ok tt =
      rw found (allowed-check target (from_row db.file_changes row) open_still allowed) in
    (
      get id (write_status id target now db),
      write_status id target now db,
      done_call c db checked,
      own_row id c db row found ((string_key.same_iff id id).1 refl),
    )

-- The life of a change set from one row to another.
abbrev pub Lives : String → List TransitionCall → ChangeDb → ChangeSetRow → Type 0
Lives id calls db row =
    (last : ChangeSetRow) × (find changeset_key id (perform_all calls db).changesets ≡ some last)
    × IsLife row.status (after row.status) (moves_of id calls db) last.status

Lives-step :
    (id : String) (c : TransitionCall) (calls : List TransitionCall) (db : ChangeDb)
    (row : ChangeSetRow)
    → IsStep id c db row
    → ((next : ChangeSetRow)
        → find changeset_key id (call c db).1.changesets ≡ some next
        → Lives id calls (call c db).1 next)
    → Lives id (c ∷ calls) db row
Lives-step id c calls db row (stays {next} m found same) ih =
    let (last, at_end, life) = ih next found in
    (
      last,
      at_end,
      rw m
          (subst (λ s. IsLife s (after s) (moves_of id calls (call c db).1) last.status) same life),
    )
Lives-step id c calls db row (goes {next} m found same move) ih =
    let (last, at_end, life) = ih next found in
    (
      last,
      at_end,
      rw m (
          IsLife-move move (
            subst (λ s. IsLife s (after s) (moves_of id calls (call c db).1) last.status) same
              life)),
    )

-- Whatever transitions are asked for, of whatever change sets and in whatever order, a stored
-- change set only takes the states that follow its own, in their order with none left out (both
-- backups come before it is applied, and it is validated before it is verified); it fails at most
-- once, before it is verified, and is rolled back at most once, from applied or validated; and
-- after a failure or a rollback it stays as it is.
pub perform_all-Lives :
    (id : String) (calls : List TransitionCall) (db : ChangeDb) (row : ChangeSetRow)
    → find changeset_key id db.changesets ≡ some row
    → Lives id calls db row
perform_all-Lives id [] db row found = (row, found, in_order 0)
perform_all-Lives id (c ∷ calls) db row found =
    Lives-step id c calls db row (call-IsStep id c db row found)
      (λ next h. perform_all-Lives id calls (call c db).1 next h)
