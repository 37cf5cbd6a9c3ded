-- ===== src/Idempotency/Api.antt =====
-- api/idempotency.py: the grammar of a key, and `execute_idempotent`. The encoder of a response
-- body (`json.dumps` of `jsonable_encoder`) and its validator (`model_validate_json`) are
-- parameters. The action is a call on the table as well: while it is awaited, other requests run.
use incidentlens.Common.{
  ℕ, String, Bool, true, false, ◌&&◌, ◌||◌, Option, none, some, if◌then◌else◌, leb, ltb, ◌==◌, all,
  length, codes, ok, err, Result, Action,
}
use incidentlens.Idempotency.Types.{
  ReservationStatus, Reservation, RowKey, Keys, IdempotencyError, idempotency_key_required,
  idempotency_conflict, idempotency_in_progress, no_response_body, invalid_response_body,
  action_raised,
}
use incidentlens.Idempotency.Service

-- `[A-Za-z0-9._:-]`.
abbrev pub is_key_char : ℕ → Bool
is_key_char c =
    (leb 65 c && leb c 90)
    || ((leb 97 c && leb c 122)
        || ((leb 48 c && leb c 57) || (c == 46 || (c == 95 || (c == 58 || c == 45)))))

-- `IDEMPOTENCY_KEY_PATTERN.fullmatch`.
abbrev pub matches_key_pattern : String → Bool
matches_key_pattern raw =
    all is_key_char (codes raw) && (leb 1 (length (codes raw)) && leb (length (codes raw)) 200)

abbrev pub require_idempotency_key : Option String → Result IdempotencyError String
require_idempotency_key none = err idempotency_key_required
require_idempotency_key (some raw) =
    if matches_key_pattern raw then ok raw else err idempotency_key_required

-- `(status_code, body, replayed)`.
pub record Response (T : Type 0) : Type 0 where
  pub status_code : ℕ
  pub body : T
  pub replayed : Bool

abbrev pub code_or_200 : Option ℕ → ℕ
code_or_200 none = 200
code_or_200 (some code) = code

-- `200 <= status_code < 300`.
abbrev pub is_success : ℕ → Bool
is_success code = leb 200 code && ltb code 300

module _ {T : Type 0} (encode : T → String) (decode : String → Option T) where
  abbrev pub replayed_response : Option ℕ → Option String → Result IdempotencyError (Response T)
  replayed_response code none = err no_response_body
  replayed_response code (some response_json) = elim (decode response_json) [
    | none ↦ err invalid_response_body
    | some body ↦ ok (record { status_code = code_or_200 code; body = body; replayed = true })
  ]

  -- What follows `await action()`; `_rearm_after_failure` is `keep_alive_after_failure`.
  abbrev pub finish : RowKey → ℕ → Result String (ℕ × T) → Action Keys IdempotencyError (Response T)
  finish k later (err e) rows =
      (err (action_raised e), Service.keep_alive_after_failure k later rows)
  finish k later (ok (code, body)) rows = (
    ok (record { status_code = code; body = body; replayed = false }),
    (if is_success code
        then Service.complete k code (encode body) later rows
        else Service.keep_alive_after_failure k later rows),
  )

  -- The branches on `reservation.status`.
  abbrev pub with_reservation :
      RowKey
      → ℕ
      → Action Keys String (ℕ × T)
      → Reservation
      → ReservationStatus
      → Action Keys IdempotencyError (Response T)
  with_reservation k later action r ReservationStatus.replay rows =
      (replayed_response r.status_code r.response_json, rows)
  with_reservation k later action r ReservationStatus.conflict rows =
      (err idempotency_conflict, rows)
  with_reservation k later action r ReservationStatus.in_progress rows =
      (err idempotency_in_progress, rows)
  with_reservation k later action r ReservationStatus.reserved rows =
      let (outcome, rows') = action rows in finish k later outcome rows'

  abbrev pub after_reserve :
      RowKey
      → ℕ
      → Action Keys String (ℕ × T)
      → Result IdempotencyError Reservation × Keys
      → Result IdempotencyError (Response T) × Keys
  after_reserve k later action (err e, rows) = (err e, rows)
  after_reserve k later action (ok r, rows) = with_reservation k later action r r.status rows

  -- `execute_idempotent`: the clock is read at the reservation and again after the action.
  unfoldable pub execute_idempotent :
      RowKey
      → String
      → ℕ
      → ℕ
      → Action Keys String (ℕ × T)
      → Action Keys IdempotencyError (Response T)
  execute_idempotent k sha now later action rows =
      elim (require_idempotency_key (some k.idempotency_key)) [
        | err e ↦ (err e, rows)
        | ok _ ↦ after_reserve k later action (Service.reserve k sha now rows)
      ]
