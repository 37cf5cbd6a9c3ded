-- ===== src/Approvals/Once.antt =====
-- An approval of approvals/store.py and approvals/service.py is decided once and used once.
use incidentlens.Common.{
  ℕ, String, Bool, true, false, ◌&&◌, ◌||◌, Option, none, some, List, [], ◌∷◌, if◌then◌else◌,
  str_eq, eq_iff, err, ◌≡◌, refl, sym, ap, ◌∙◌, arith, All, All-append, Option-cases, inl, inr, ◌⊎◌,
  subst, ◌>>◌,
}
use incidentlens.Common.Sql.{update_where, All-update}
use incidentlens.Common.Keyed.{
  rowcount-find, string_key, has_key, find, IsUnique, IsUnique-update, IsUnique-insert,
}
use incidentlens.Approvals.Types.{
  ApprovalStatus, ApprovalRecord, approval_unavailable, approval_already_decided,
}
use incidentlens.Approvals.Store.{
  Store, approval_key, NewRequest, new_record, create_request, is_none,
}
use incidentlens.Approvals.Decisions.{
  Decision, mark_downstream, consume, decide, is_decidable, set_decided, set_downstream,
  set_consumed, is_consumable, is_pending, is_approved, check_row, check_decidable, write_decision,
}
use incidentlens.Approvals.Token.{
  Token, rejected, consumed, token_at, token_found, token_of, Call, creates, approves, rejects,
  marks, consumes, of_call, perform, perform_all, id_of, accepts, next, step, IsFormed, is_consumed,
}
use incidentlens.Approvals.Moves.{own, step-own}
use incidentlens.Approvals.Updates.{branch, meets, decide_lem, consume_lem}
use incidentlens.Approvals.Refines.{perform-Refines}

-- What the table keeps: unique ids, and a time of use on consumed rows only.
abbrev pub IsSound : List ApprovalRecord → Type 0
IsSound rows = IsUnique approval_key rows × All IsFormed rows

update-IsSound :
    (p : ApprovalRecord → Bool) (f : ApprovalRecord → ApprovalRecord) (rows : List ApprovalRecord)
    → ((r : ApprovalRecord) → (f r).approval_id ≡ r.approval_id)
    → ((r : ApprovalRecord) → p r ≡ true → IsFormed r → IsFormed (f r))
    → IsSound rows
    → IsSound (update_where p f rows)
update-IsSound p f rows keeps formed (u, h) =
    (IsUnique-update approval_key p f rows keeps u, All-update IsFormed p f rows formed h)

set_decided-IsFormed :
    (target : ApprovalStatus) (now : ℕ) (decision : Decision) (r : ApprovalRecord)
    → is_pending r.status ≡ true
    → IsFormed r
    → IsFormed (set_decided target now decision r)
unfolding set_decided
set_decided-IsFormed target now decision r p h = waiting r.status r.consumed_at p h
  where
    waiting :
        (s : ApprovalStatus) (used : Option ℕ)
        → is_pending s ≡ true
        → (is_consumed s || is_none used) ≡ true
        → (is_consumed target || is_none used) ≡ true
    waiting ApprovalStatus.pending used p h = ground arith
    waiting ApprovalStatus.approved used p h = absurd (cc p)
    waiting ApprovalStatus.rejected used p h = absurd (cc p)
    waiting ApprovalStatus.consumed used p h = absurd (cc p)

decided-IsSound :
    (j : String) (target : ApprovalStatus) (now : ℕ) (decision : Decision)
    (rows : List ApprovalRecord)
    → IsSound rows
    → IsSound (of_call (decide j target now decision rows)).1
unfolding set_decided
decided-IsSound j target now decision rows sound =
    subst (λ (o : Bool × List ApprovalRecord). IsSound o.1)
      (sym (decide_lem j target now decision rows sound.0))
      (either (meets (is_decidable now) (find approval_key j rows)))
  where
    written : List ApprovalRecord
    written =
        update_where (λ r. has_key approval_key j r && is_decidable now r)
          (set_decided target now decision) rows

    either : (b : Bool) → IsSound (branch b written rows).1
    either true =
        update-IsSound (λ r. has_key approval_key j r && is_decidable now r)
          (set_decided target now decision) rows (λ r. refl)
          (λ r p h. set_decided-IsFormed target now decision r (ground (arith, p)) h) sound
    either false = sound

creates-IsSound :
    (request : NewRequest) (now : ℕ) (rows : List ApprovalRecord)
    → IsSound rows
    → IsSound (of_call (create_request request now rows)).1
unfolding create_request new_record
creates-IsSound request now rows (u, h) =
    elim (Option-cases (find approval_key request.approval_id rows)) [
      | inr (r, e) ↦ rw e (u, h)
      | inl e ↦ rw e (
        IsUnique-insert approval_key (new_record request now) rows e u,
        All-append IsFormed rows (new_record request now ∷ []) h (refl, tt),
      )
    ]

-- Every call that writes the table keeps it sound.
pub perform-IsSound :
    (call : Call) (rows : List ApprovalRecord) → IsSound rows → IsSound (perform call rows).1
unfolding perform mark_downstream set_downstream set_consumed
perform-IsSound (creates request now) rows sound = creates-IsSound request now rows sound
perform-IsSound (approves j now decision) rows sound =
    decided-IsSound j ApprovalStatus.approved now decision rows sound
perform-IsSound (rejects j now decision) rows sound =
    decided-IsSound j ApprovalStatus.rejected now decision rows sound
perform-IsSound (marks j status code now) rows sound =
    update-IsSound (has_key approval_key j) (set_downstream status code now) rows (λ r. refl)
      (λ r p h. h) sound
perform-IsSound (consumes j now) rows sound =
    subst (λ (o : Bool × List ApprovalRecord). IsSound o.1) (sym (consume_lem j now rows sound.0))
      (update-IsSound (λ r. has_key approval_key j r && is_consumable now r) (set_consumed now) rows
        (λ r. refl) (λ r p h. refl) sound)

-- A rejected or a used approval.
abbrev pub HasEnded : Token → Type 0
HasEnded token = (token ≡ rejected) ⊎ (token ≡ consumed)

own-HasEnded : (call : Call) → (own call rejected ≡ rejected) × (own call consumed ≡ consumed)
own-HasEnded (creates request now) = (refl, refl)
own-HasEnded (approves j now decision) = (refl, refl)
own-HasEnded (rejects j now decision) = (refl, refl)
own-HasEnded (marks j status code now) = (refl, refl)
own-HasEnded (consumes j now) = (refl, refl)

step-HasEnded :
    (i : String) (call : Call) (token : Token) → HasEnded token → step i call token ≡ token
step-HasEnded i call token h = step-own i call token ∙ stays (str_eq (id_of call) i) h
  where
    stays : (b : Bool) → HasEnded token → (if b then own call token else token) ≡ token
    stays false h = refl
    stays true (inl e) = rw e (own-HasEnded call).0
    stays true (inr e) = rw e (own-HasEnded call).1

-- No sequence of calls moves an approval that has ended.
perform_all-HasEnded :
    (i : String) (calls : List Call) (rows : List ApprovalRecord)
    → IsSound rows
    → HasEnded (token_of i rows)
    → IsSound (perform_all calls rows) × (token_of i (perform_all calls rows) ≡ token_of i rows)
perform_all-HasEnded i [] rows sound h = (sound, refl)
perform_all-HasEnded i (c ∷ calls) rows sound h =
    let same =
      (perform-Refines c rows sound.0 sound.1).1 i ∙ step-HasEnded i c (token_of i rows) h in
    let (later, e) =
      perform_all-HasEnded i calls (perform c rows).1 (perform-IsSound c rows sound)
        (subst HasEnded (sym same) h) in
    (later, e ∙ same)

-- The row of an approval that has ended.
ended_row :
    (found : Option ApprovalRecord)
    → HasEnded (token_found found)
    → (r : ApprovalRecord) × (found ≡ some r)
      × (is_pending r.status ≡ false)
      × (is_approved r.status ≡ false)
ended_row none (inl e) = absurd (cc e)
ended_row none (inr e) = absurd (cc e)
ended_row (some r) h = let both = at_status r.status r.expires_at h in (r, refl, both.0, both.1)
  where
    at_status :
        (s : ApprovalStatus) (t : ℕ)
        → HasEnded (token_at s t)
        → (is_pending s ≡ false) × (is_approved s ≡ false)
    at_status ApprovalStatus.pending t (inl e) = absurd (cc e)
    at_status ApprovalStatus.pending t (inr e) = absurd (cc e)
    at_status ApprovalStatus.approved t (inl e) = absurd (cc e)
    at_status ApprovalStatus.approved t (inr e) = absurd (cc e)
    at_status ApprovalStatus.rejected t h = (refl, refl)
    at_status ApprovalStatus.consumed t h = (refl, refl)

consume_refused :
    (j : String) (now : ℕ) (rows : List ApprovalRecord) (r : ApprovalRecord)
    → IsUnique approval_key rows
    → find approval_key j rows ≡ some r
    → is_approved r.status ≡ false
    → (consume j now rows).0 ≡ err approval_unavailable
unfolding consume
consume_refused j now rows r u e h =
    rw (rowcount-find approval_key j (is_consumable now) rows u, e, h) refl

check_refused :
    (now : ℕ) (r : ApprovalRecord) (k : Store (Option ApprovalRecord)) (rows : List ApprovalRecord)
    → is_pending r.status ≡ false
    → (((λ db. (check_row (some r) now, db)) >> k) rows).0 ≡ err approval_already_decided
check_refused now r k rows h = rw h refl

decide_refused :
    (j : String) (target : ApprovalStatus) (now : ℕ) (decision : Decision)
    (rows : List ApprovalRecord) (r : ApprovalRecord)
    → find approval_key j rows ≡ some r
    → is_pending r.status ≡ false
    → (decide j target now decision rows).0 ≡ err approval_already_decided
unfolding decide check_decidable
decide_refused j target now decision rows r e h =
    ap
      (λ found.
        (((λ db. (check_row found now, db)) >> write_decision j target now decision) rows).0)
      e
    ∙ check_refused now r (write_decision j target now decision) rows h

-- A rejection or a use.
pub data IsEnding : Call → Type 0 where
  rejection : (j : String) (now : ℕ) (decision : Decision) → IsEnding (rejects j now decision)
  use_up : (j : String) (now : ℕ) → IsEnding (consumes j now)

next-HasEnded : (call : Call) (token : Token) → IsEnding call → HasEnded (next call token)
next-HasEnded _ token (rejection j now decision) = inl refl
next-HasEnded _ token (use_up j now) = inr refl

ends_token :
    (call : Call) (rows : List ApprovalRecord)
    → IsSound rows
    → IsEnding call
    → (perform call rows).0 ≡ true
    → HasEnded (token_of (id_of call) (perform call rows).1)
ends_token call rows sound ending h =
    let refines = perform-Refines call rows sound.0 sound.1 in
    let accepted : accepts call (token_of (id_of call) rows) ≡ true = sym refines.0 ∙ h in
    subst HasEnded (sym (refines.1 (id_of call) ∙ moved accepted))
      (next-HasEnded call (token_of (id_of call) rows) ending)
  where
    moved :
        accepts call (token_of (id_of call) rows) ≡ true
        → step (id_of call) call (token_of (id_of call) rows)
          ≡ next call (token_of (id_of call) rows)
    moved accepted = rw ((eq_iff (id_of call) (id_of call)).1 refl, accepted) refl

-- Once an approval was rejected or consumed, over a table with unique ids in which only consumed
-- rows have a time of their use, whatever calls come in between: using it is refused as
-- unavailable, and deciding it is refused as already decided, at any time and by anyone.
pub ended_once :
    (call : Call) (rows : List ApprovalRecord) (calls : List Call) (target : ApprovalStatus)
    (now : ℕ) (decision : Decision)
    → IsSound rows
    → IsEnding call
    → (perform call rows).0 ≡ true
    → ((consume (id_of call) now (perform_all calls (perform call rows).1)).0
        ≡ err approval_unavailable)
      × ((decide (id_of call) target now decision (perform_all calls (perform call rows).1)).0
          ≡ err approval_already_decided)
ended_once call rows calls target now decision sound ending h =
    let ended = ends_token call rows sound ending h in
    let (later, same) =
      perform_all-HasEnded (id_of call) calls (perform call rows).1
        (perform-IsSound call rows sound) ended in
    let (r, e, p, a) =
      ended_row (find approval_key (id_of call) (perform_all calls (perform call rows).1))
        (subst HasEnded (sym same) ended) in
    (
      consume_refused (id_of call) now (perform_all calls (perform call rows).1) r later.0 e a,
      decide_refused (id_of call) target now decision (perform_all calls (perform call rows).1) r e
          p,
    )
