-- ===== src/Approvals/Refines.antt =====
-- The table of approvals/store.py refines the life of each approval.
use incidentlens.Common.{
  ℕ, String, Bool, true, false, ◌&&◌, Option, none, some, List, if◌then◌else◌, str_eq, eq_iff, ◌≡◌,
  refl, sym, ap, ◌∙◌, All, Bool-cases, Option-cases, inl, inr,
}
use mathlib.Core.Option
use incidentlens.Common.Sql.{update_where, insert_row, All-select_one}
use incidentlens.Common.Keyed.{
  string_key, has_key, find, IsUnique, find-update, find-insert_other, find-insert_self, map_if,
}
use incidentlens.Approvals.Types.{ApprovalStatus, ApprovalDownstreamStatus, ApprovalRecord}
use incidentlens.Approvals.Store.{approval_key, NewRequest, new_record, create_request}
use incidentlens.Approvals.Decisions.{
  Decision, mark_downstream, decide, is_decidable, set_decided, set_downstream, set_consumed,
  is_consumable,
}
use incidentlens.Approvals.Token.{
  Token, absent, token_at, token_found, token_of, Call, creates, approves, rejects, marks, consumes,
  of_call, perform, id_of, accepts, step, IsFormed,
}
use incidentlens.Approvals.Moves.{token-if, own, step-own, consume_token, decide_token}
use incidentlens.Approvals.Updates.{
  branch, meets, decide_lem, consume_lem, update_token, accepts_decision, accepts_consume,
}

-- A call on the table does to each id what it does to the life of an approval, and returns where
-- the life of its id accepts it.
abbrev pub Refines : Call → List ApprovalRecord → Type 0
Refines call rows =
    ((perform call rows).0 ≡ accepts call (token_of (id_of call) rows))
    × ((i : String) → token_of i (perform call rows).1 ≡ step i call (token_of i rows))

-- A call that raised leaves the token of its id, which does not accept it.
raised :
    (i : String) (call : Call) (rows : List ApprovalRecord)
    → accepts call (token_of (id_of call) rows) ≡ false
    → token_of i rows ≡ step i call (token_of i rows)
raised i call rows h = elim (Bool-cases (str_eq (id_of call) i)) [
  | inr e ↦ rw e refl
  | inl e ↦
      rw (e, ap (λ j. accepts call (token_of j rows)) (sym ((eq_iff (id_of call) i).0 e)), h) refl
]

decided_rows :
    (call : Call) (j : String) (target : ApprovalStatus) (now : ℕ) (decision : Decision)
    (rows : List ApprovalRecord)
    → id_of call ≡ j
    → perform call rows ≡ of_call (decide j target now decision rows)
    → accepts call (token_of j rows) ≡ meets (is_decidable now) (find approval_key j rows)
    → ((r : ApprovalRecord)
        → token_found (some (if is_decidable now r then set_decided target now decision r else r))
          ≡ own call (token_found (some r)))
    → own call absent ≡ absent
    → IsUnique approval_key rows
    → Refines call rows
unfolding set_decided
decided_rows call j target now decision rows same run accepted at_row at_none u = (
  ap (λ o. o.0) (run ∙ decide_lem j target now decision rows u)
      ∙ first (meets (is_decidable now) (find approval_key j rows))
      ∙ sym (ap (λ k. accepts call (token_of k rows)) same ∙ accepted),
  λ i.
      ap (λ o. token_of i o.1) (run ∙ decide_lem j target now decision rows u)
      ∙ second i (meets (is_decidable now) (find approval_key j rows)) refl,
)
  where
    written : List ApprovalRecord
    written =
        update_where (λ r. has_key approval_key j r && is_decidable now r)
          (set_decided target now decision) rows

    first : (b : Bool) → (branch b written rows).0 ≡ b
    first true = refl
    first false = refl

    second :
        (i : String) (b : Bool)
        → meets (is_decidable now) (find approval_key j rows) ≡ b
        → token_of i (branch b written rows).1 ≡ step i call (token_of i rows)
    second i true h =
        update_token i j (is_decidable now) (set_decided target now decision) (own call) rows
          (λ r. refl) (λ r e. at_row r) at_none
        ∙ sym (
            step-own i call (token_of i rows)
            ∙ ap (λ k. if str_eq k i then own call (token_of i rows) else token_of i rows) same)
    second i false h =
        raised i call rows (ap (λ k. accepts call (token_of k rows)) same ∙ accepted ∙ h)

inserted_token :
    (i : String) (request : NewRequest) (now : ℕ) (rows : List ApprovalRecord)
    → find approval_key request.approval_id rows ≡ none
    → token_of i (insert_row (new_record request now) rows)
      ≡ step i (creates request now) (token_of i rows)
unfolding new_record
inserted_token i request now rows e = elim (Bool-cases (str_eq request.approval_id i)) [
  | inl q ↦
      let same = (eq_iff request.approval_id i).0 q in
      rw
        (
          q,
          find-insert_self approval_key i (new_record request now) rows same (rw same at e),
          rw same at e,
        )
        refl
  | inr q ↦
      rw
        (
          q,
          find-insert_other approval_key i (new_record request now) rows
              (λ same. absurd (cc (q, (eq_iff request.approval_id i).1 same))),
        )
        refl
]

creates-Refines :
    (request : NewRequest) (now : ℕ) (rows : List ApprovalRecord)
    → Refines (creates request now) rows
unfolding perform create_request
creates-Refines request now rows =
    elim (Option-cases (find approval_key request.approval_id rows)) [
      | inr (r, e) ↦ (
        rw e (sym (refused r.status r.expires_at)),
        λ i. rw e (raised i (creates request now) rows (rw e (refused r.status r.expires_at))),
      )
      | inl e ↦ (rw e refl, λ i. rw e (inserted_token i request now rows e))
    ]
  where
    refused : (s : ApprovalStatus) (t : ℕ) → accepts (creates request now) (token_at s t) ≡ false
    refused ApprovalStatus.pending t = refl
    refused ApprovalStatus.approved t = refl
    refused ApprovalStatus.rejected t = refl
    refused ApprovalStatus.consumed t = refl

approves-Refines :
    (j : String) (now : ℕ) (decision : Decision) (rows : List ApprovalRecord)
    → IsUnique approval_key rows
    → Refines (approves j now decision) rows
unfolding perform
approves-Refines j now decision rows =
    decided_rows (approves j now decision) j ApprovalStatus.approved now decision rows refl refl
      (accepts_decision j now decision (find approval_key j rows)).0
      (λ r. (decide_token j now decision r).0) refl

rejects-Refines :
    (j : String) (now : ℕ) (decision : Decision) (rows : List ApprovalRecord)
    → IsUnique approval_key rows
    → Refines (rejects j now decision) rows
unfolding perform
rejects-Refines j now decision rows =
    decided_rows (rejects j now decision) j ApprovalStatus.rejected now decision rows refl refl
      (accepts_decision j now decision (find approval_key j rows)).1
      (λ r. (decide_token j now decision r).1) refl

consumes-Refines :
    (j : String) (now : ℕ) (rows : List ApprovalRecord)
    → IsUnique approval_key rows
    → All IsFormed rows
    → Refines (consumes j now) rows
unfolding perform set_consumed
consumes-Refines j now rows u formed =
    let run = consume_lem j now rows u in
    (
      ap (λ (o : Bool × List ApprovalRecord). o.0) run
          ∙ sym (
              accepts_consume j now (find approval_key j rows)
                (λ r e. All-select_one IsFormed (has_key approval_key j) rows formed e)),
      λ i.
          ap (λ (o : Bool × List ApprovalRecord). token_of i o.1) run
          ∙ update_token i j (is_consumable now) (set_consumed now) (own (consumes j now)) rows
              (λ r. refl)
              (λ r e.
                consume_token j now r
                  (All-select_one IsFormed (has_key approval_key i) rows formed e))
              refl
          ∙ sym (step-own i (consumes j now) (token_of i rows)),
    )

marks-Refines :
    (j : String) (status : ApprovalDownstreamStatus) (code : Option String) (now : ℕ)
    (rows : List ApprovalRecord)
    → Refines (marks j status code now) rows
unfolding perform mark_downstream set_downstream
marks-Refines j status code now rows = (
  refl,
  λ i.
      ap token_found (
        find-update approval_key i (has_key approval_key j) (set_downstream status code now) rows
          (λ r. refl))
      ∙ mapped (find approval_key i rows)
      ∙ sym (unmoved i (token_of i rows)),
)
  where
    same : (b : Bool) (t : Token) → (if b then t else t) ≡ t
    same true t = refl
    same false t = refl

    mapped :
        (found : Option ApprovalRecord)
        → token_found
            (Option.map (map_if (has_key approval_key j) (set_downstream status code now)) found)
          ≡ token_found found
    mapped none = refl
    mapped (some r) =
        token-if (has_key approval_key j r) (set_downstream status code now r) r
        ∙ same (has_key approval_key j r) (token_at r.status r.expires_at)

    unmoved : (i : String) (t : Token) → step i (marks j status code now) t ≡ t
    unmoved i t = elim (Bool-cases (str_eq j i)) [ inl e ↦ rw e refl | inr e ↦ rw e refl ]

-- Over a table with unique ids in which only consumed rows have a time of their use, every call
-- that writes the table refines the life of an approval: it returns exactly where that life
-- accepts it, its own id moves as it moves there, and every other id stays as it is.
pub perform-Refines :
    (call : Call) (rows : List ApprovalRecord)
    → IsUnique approval_key rows
    → All IsFormed rows
    → Refines call rows
perform-Refines (creates request now) rows u formed = creates-Refines request now rows
perform-Refines (approves j now decision) rows u formed = approves-Refines j now decision rows u
perform-Refines (rejects j now decision) rows u formed = rejects-Refines j now decision rows u
perform-Refines (marks j status code now) rows u formed = marks-Refines j status code now rows
perform-Refines (consumes j now) rows u formed = consumes-Refines j now rows u formed
