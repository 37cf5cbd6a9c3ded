-- ===== src/Idempotency/Formed.antt =====
-- What the columns of `api_idempotency_keys` say together, under every call of idempotency/store.py.
use incidentlens.Common.{
  ℕ, String, ◌≡◌, refl, sym, ◌∙◌, ◌+◌, true, false, Bool, List, [], ◌∷◌, Option, none, some, inl,
  inr, arith, All, All-append, str_eq, Result, ok, err, Action, Bool-cases, Option-cases,
}
use incidentlens.Common.Sql.{All-delete, All-update, All-select_one}
use incidentlens.Common.Keyed.{has_key, IsUnique}
use incidentlens.Idempotency.Types.{
  IdempotencyState, RowKey, row_key_eq, IdempotencyRecord, key_of, Keys, IdempotencyError,
  is_in_progress, IdempotencyState-cases, lost_occupant, no_response_body,
}
use incidentlens.Idempotency.Store.{
  reserve, mark_completed, rearm_lease, prune_expired, set_completed, set_lease, seconds,
  completed_retention_seconds, fresh_row, at_open_key, is_expired,
}
use incidentlens.Idempotency.Api.{
  Response, finish, replayed_response, execute_idempotent, matches_key_pattern,
}
use incidentlens.Idempotency.Execute.{execute_lem, execute_malformed, occupied_result}
use mathlib.Core.Path.{subst}
use mathlib.Core.Bool.{false≢true}
use incidentlens.Idempotency.Reserve.{reserve_lem, reserve-IsUnique, occupant}
use incidentlens.Idempotency.Rows.{pruned, find-pruned, pruned-IsUnique, open-IsUnique}
use incidentlens.Idempotency.Others.{
  Call, reserve_call, complete_call, rearm_call, prune_call, run, run_all,
}

-- What a completed row holds.
pub record Completion (r : IdempotencyRecord) : Type 0 where
  pub code : ℕ
  pub response : String
  pub at : ℕ
  pub has_code : r.status_code ≡ some code
  pub has_response : r.response_json ≡ some response
  pub has_time : r.completed_at ≡ some at
  pub retained : r.expires_at ≡ at + seconds completed_retention_seconds

abbrev pub FormedAt : IdempotencyState → IdempotencyRecord → Type 0
FormedAt IdempotencyState.in_progress r =
    (r.status_code ≡ none) × (r.response_json ≡ none) × (r.completed_at ≡ none)
FormedAt IdempotencyState.completed r = Completion r

abbrev pub IsFormed : IdempotencyRecord → Type 0
IsFormed r = FormedAt r.state r

mark_completed-IsFormed :
    (k : RowKey) (code : ℕ) (json : String) (now : ℕ) (rows : Keys)
    → All IsFormed rows
    → All IsFormed (mark_completed k code json now rows)
unfolding mark_completed
mark_completed-IsFormed k code json now rows h =
    All-update IsFormed (at_open_key k) (set_completed code json now) rows
      (λ r _ _. record {
        code = code;
        response = json;
        at = now;
        has_code = refl;
        has_response = refl;
        has_time = refl;
        retained = refl;
      })
      h

rearm_lease-IsFormed :
    (k : RowKey) (now : ℕ) (rows : Keys) → All IsFormed rows → All IsFormed (rearm_lease k now rows)
unfolding rearm_lease
rearm_lease-IsFormed k now rows h =
    All-update IsFormed (at_open_key k) (set_lease now) rows
      (λ r p f. elim (IdempotencyState-cases r.state) [
        | inl e ↦ subst (λ s. FormedAt s (set_lease now r)) (sym e) (subst (λ s. FormedAt s r) e f)
        | inr e ↦
            let started : is_in_progress r.state ≡ true = ground arith in
            absurd (false≢true (rw e at started))
      ])
      h

reserve-IsFormed :
    (k : RowKey) (sha : String) (now : ℕ) (rows : Keys)
    → IsUnique key_of rows
    → All IsFormed rows
    → All IsFormed (reserve k sha now rows).1
reserve-IsFormed k sha now rows u h =
    let kept : All IsFormed (pruned now rows) = All-delete IsFormed (is_expired now) rows h in
    rw (reserve_lem k sha now rows u) (elim (Option-cases (occupant k now rows)) [
      | inl e ↦ rw e (
          All-append IsFormed (pruned now rows) (fresh_row k sha now ∷ []) kept
            ((refl, refl, refl), tt))
      | inr (r, e) ↦ rw e kept
    ])

run-IsFormed :
    (c : Call) (rows : Keys) → IsUnique key_of rows → All IsFormed rows → All IsFormed (run c rows)
unfolding prune_expired
run-IsFormed (reserve_call k sha now) rows u h = reserve-IsFormed k sha now rows u h
run-IsFormed (complete_call k code json now) rows u h =
    mark_completed-IsFormed k code json now rows h
run-IsFormed (rearm_call k now) rows u h = rearm_lease-IsFormed k now rows h
run-IsFormed (prune_call now) rows u h = All-delete IsFormed (is_expired now) rows h

run-IsUnique : (c : Call) (rows : Keys) → IsUnique key_of rows → IsUnique key_of (run c rows)
unfolding mark_completed rearm_lease prune_expired
run-IsUnique (reserve_call k sha now) rows u = reserve-IsUnique k sha now rows u
run-IsUnique (complete_call k code json now) rows u =
    open-IsUnique k (set_completed code json now) (λ r. refl) rows u
run-IsUnique (rearm_call k now) rows u = open-IsUnique k (set_lease now) (λ r. refl) rows u
run-IsUnique (prune_call now) rows u = pruned-IsUnique now rows u

run_all-IsUnique :
    (calls : List Call) (rows : Keys) → IsUnique key_of rows → IsUnique key_of (run_all calls rows)
run_all-IsUnique [] rows u = u
run_all-IsUnique (c ∷ calls) rows u = run_all-IsUnique calls (run c rows) (run-IsUnique c rows u)

-- From a table with unique keys and well-formed rows every sequence of calls leaves well-formed
-- rows: an open row has no outcome, a completed row has a status, a response and a time, and expires
-- 24 hours after that.
run_all-IsFormed :
    (calls : List Call) (rows : Keys)
    → IsUnique key_of rows
    → All IsFormed rows
    → All IsFormed (run_all calls rows)
run_all-IsFormed [] rows u h = h
run_all-IsFormed (c ∷ calls) rows u h =
    run_all-IsFormed calls (run c rows) (run-IsUnique c rows u) (run-IsFormed c rows u h)

-- The two internal errors of a call.
abbrev pub is_broken : {T : Type 0} → Result IdempotencyError (Response T) → Bool
is_broken (err lost_occupant) = true
is_broken (err no_response_body) = true
is_broken _ = false

module _ {T : Type 0} (encode : T → String) (decode : String → Option T) where
  finish_sound :
      (k : RowKey) (later : ℕ) (o : Result String (ℕ × T)) (rows : Keys)
      → is_broken (finish encode decode k later o rows).0 ≡ false
  finish_sound k later (err e) rows = refl
  finish_sound k later (ok (code, body)) rows = refl

  replayed_sound :
      (code : Option ℕ) (response : String)
      → is_broken (replayed_response encode decode code (some response)) ≡ false
  replayed_sound code response = ground (arith, Option-cases (decode response))

  occupied_sound :
      (sha : String) (r : IdempotencyRecord)
      → IsFormed r
      → is_broken (occupied_result encode decode sha r r.state) ≡ false
  occupied_sound sha r f = elim (IdempotencyState-cases r.state) [
    | inl e ↦ rw e refl
    | inr e ↦
        let done : Completion r = subst (λ s. FormedAt s r) e f in
        rw e (elim (Bool-cases (str_eq r.request_sha256 sha)) [
          | inr other ↦ rw other refl
          | inl same ↦ rw (same, done.has_response) (replayed_sound r.status_code done.response)
        ])
  ]

  -- No call meets the internal errors over such rows.
  formed_sound :
      (k : RowKey) (sha : String) (now later : ℕ) (action : Action Keys String (ℕ × T))
      (rows : Keys)
      → IsUnique key_of rows
      → All IsFormed rows
      → is_broken (execute_idempotent encode decode k sha now later action rows).0 ≡ false
  formed_sound k sha now later action rows u h =
      elim (Bool-cases (matches_key_pattern k.idempotency_key)) [
        | inr bad ↦ rw (execute_malformed encode decode k sha now later action rows bad) refl
        | inl good ↦
            rw (execute_lem encode decode k sha now later action rows good u)
              (elim (Option-cases (occupant k now rows)) [
                | inl e ↦ rw e (finish_sound k later _ _)
                | inr (r, e) ↦ rw e (
                    occupied_sound sha r (
                      All-select_one IsFormed (has_key key_of k) (pruned now rows)
                        (All-delete IsFormed (is_expired now) rows h)
                        (find-pruned k now rows u ∙ e)))
              ])
      ]

  -- From the empty table, after any sequence of calls of the store (reservations, completions,
  -- renewals of a lease and prunings, of any keys at any times), no call of `execute_idempotent`
  -- meets the internal errors, a completed row without a response or a lost occupant: not with any
  -- key, request, time or action.
  pub execute_sound :
      (calls : List Call) (k : RowKey) (sha : String) (now later : ℕ)
      (action : Action Keys String (ℕ × T))
      → is_broken (execute_idempotent encode decode k sha now later action (run_all calls [])).0
        ≡ false
  execute_sound calls k sha now later action =
      formed_sound k sha now later action (run_all calls []) (run_all-IsUnique calls [] tt)
        (run_all-IsFormed calls [] tt tt)
