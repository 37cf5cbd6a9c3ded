-- ===== src/Idempotency/Tests.antt =====
-- The theorems about idempotency at concrete tables.
use mathlib.Core.Bool.{false≢true}
use incidentlens.Common.{
  ℕ, String, ◌≡◌, refl, ◌≢◌, arith, true, false, List, [], ◌∷◌, Option, some, All, ok, err, Action,
}
use incidentlens.Common.Keyed.{find, IsUnique}
use incidentlens.Idempotency.Types.{
  ReservationStatus, bare_reservation, RowKey, row_key_eq, key_of, Keys, idempotency_key_required,
  same_row_key_iff,
}
use incidentlens.Idempotency.Store.{reserve, mark_completed, set_completed, fresh_row, seconds}
use incidentlens.Idempotency.Api.{execute_idempotent, require_idempotency_key}
use incidentlens.Idempotency.Rows.{pruned}
use incidentlens.Idempotency.Execute.{run_action}
use incidentlens.Idempotency.Others.{
  Call, reserve_call, complete_call, rearm_call, prune_call, run_all, IsOther, reserve_exclusive,
}
use incidentlens.Idempotency.Repeat.{after_call, repeat_success, retry_runs}
use incidentlens.Idempotency.Stale.{taken_over, stale_completion}
use incidentlens.Idempotency.Formed.{is_broken, execute_sound}
use incidentlens.Common.Sql.{insert_row}

abbrev key_one : RowKey
key_one = record {
  principal_id = "owner";
  method = "POST";
  route_key = "targets.test";
  idempotency_key = "key-1";
}

abbrev key_two : RowKey
key_two = record {
  principal_id = "owner";
  method = "POST";
  route_key = "targets.test";
  idempotency_key = "key-2";
}

abbrev as_text : String → String
as_text s = s

abbrev read_text : String → Option String
read_text s = some s

-- Another request works on its own key, and tries the first one.
abbrev others : List Call
others =
    reserve_call key_two "sha_2" (seconds 11)
    ∷ reserve_call key_one "sha_1" (seconds 12)
    ∷ complete_call key_two 201 "two" (seconds 13)
    ∷ prune_call (seconds 14)
    ∷ []

abbrev no_action : Action Keys String (ℕ × String)
no_action rows = (err "not to be run", rows)

key_refused : require_idempotency_key (some "a key") ≡ err idempotency_key_required
key_refused = refl

keys_differ : key_one ≢ key_two
keys_differ p = false≢true ((same_row_key_iff key_one key_two).1 p)

others-IsOther : All (IsOther key_one (seconds 310)) others
others-IsOther = (omega arith, (omega arith, (keys_differ, (omega arith, tt))))

reserve_exclusive_example :
    (reserve key_one "sha_1"
      (seconds 100)
      (run_all others (reserve key_one "sha_1" (seconds 10) []).1)).0
    ≡ ok (bare_reservation ReservationStatus.in_progress)
unfolding reserve
reserve_exclusive_example =
    reserve_exclusive key_one "sha_1" "sha_1" (seconds 10) (seconds 100) others [] tt refl
      others-IsOther (omega arith)

abbrev two_rows : Keys
two_rows = insert_row (fresh_row key_two "sha_2" 0) []

two_rows-IsUnique : IsUnique key_of two_rows
two_rows-IsUnique = (refl, tt)

abbrev stored_success : Keys
stored_success =
    after_call as_text read_text key_one "sha_1" (seconds 10) (seconds 20) others two_rows
      (ok (201, "one")) (prune_call (seconds 30) ∷ [])

repeat_success_example :
    execute_idempotent as_text read_text key_one "sha_1"
      (seconds 3000)
      (seconds 3001)
      no_action
      stored_success
    ≡ (
      ok (record { status_code = 201; body = "one"; replayed = true }),
      pruned (seconds 3000) stored_success,
    )
repeat_success_example =
    repeat_success as_text read_text key_one "sha_1" (seconds 10) (seconds 20) others two_rows 201
      "one" (prune_call (seconds 30) ∷ []) "sha_1" (seconds 3000) (seconds 3001) no_action
      (λ b. refl) refl two_rows-IsUnique refl refl others-IsOther (omega arith, tt) (omega arith)

abbrev stored_failure : Keys
stored_failure =
    after_call as_text read_text key_one "sha_1" (seconds 10) (seconds 20) others two_rows
      (err "timeout") []

retry_runs_example :
    execute_idempotent as_text read_text key_one "sha_1"
      (seconds 80)
      (seconds 81)
      no_action
      stored_failure
    ≡ run_action as_text read_text key_one (seconds 81) (
        no_action (
          insert_row (fresh_row key_one "sha_1" (seconds 80)) (pruned (seconds 80) stored_failure)))
retry_runs_example =
    retry_runs as_text read_text key_one "sha_1" (seconds 10) (seconds 20) others two_rows
      (err "timeout") [] "sha_1" (seconds 80) (seconds 81) no_action refl two_rows-IsUnique refl
      refl others-IsOther tt (omega arith)

abbrev taken : Keys
taken = taken_over key_one "sha_1" "sha_x" (seconds 10) (seconds 400) []

stale_completion_example :
    (find key_of key_one (mark_completed key_one 201 "one" (seconds 410) taken)
      ≡ some (set_completed 201 "one" (seconds 410) (fresh_row key_one "sha_x" (seconds 400))))
    × (find key_of key_one (
          mark_completed key_one 200 "x"
            (seconds 420)
            (mark_completed key_one 201 "one" (seconds 410) taken))
        ≡ some (set_completed 201 "one" (seconds 410) (fresh_row key_one "sha_x" (seconds 400))))
stale_completion_example =
    stale_completion key_one "sha_1" "sha_x" (seconds 10) (seconds 400) [] 201 200 "one" "x"
      (seconds 410) (seconds 420) tt refl (omega arith)

abbrev history : List Call
history =
    reserve_call key_one "sha_1" (seconds 1)
    ∷ reserve_call key_two "sha_2" (seconds 2)
    ∷ rearm_call key_two (seconds 3)
    ∷ complete_call key_one 201 "one" (seconds 4)
    ∷ prune_call (seconds 5)
    ∷ []

execute_sound_example :
    is_broken
      (execute_idempotent as_text read_text key_one "sha_1"
        (seconds 9)
        (seconds 9)
        no_action
        (run_all history [])).0
    ≡ false
execute_sound_example =
    execute_sound as_text read_text history key_one "sha_1" (seconds 9) (seconds 9) no_action
