-- ===== src/Idempotency/Types.antt =====
-- idempotency/types.py: the row of `api_idempotency_keys`, its key and the outcomes of a reservation.
use incidentlens.Common.{
  ℕ, String, ◌≡◌, ◌↔◌, Bool, true, false, ◌&&◌, Option, none, arith, str_eq, eq_iff, List, ◌⊎◌, inl,
  inr, refl,
}
use incidentlens.Common.Keyed.{Key}

pub data IdempotencyState : Type 0 where
  in_progress completed : IdempotencyState

abbrev pub is_in_progress : IdempotencyState → Bool
is_in_progress IdempotencyState.in_progress = true
is_in_progress IdempotencyState.completed = false

pub IdempotencyState-cases :
    (s : IdempotencyState) → (s ≡ IdempotencyState.in_progress) ⊎ (s ≡ IdempotencyState.completed)
IdempotencyState-cases IdempotencyState.in_progress = inl refl
IdempotencyState-cases IdempotencyState.completed = inr refl

pub data ReservationStatus : Type 0 where
  reserved replay conflict in_progress : ReservationStatus

pub record Reservation : Type 0 where
  pub status : ReservationStatus
  pub status_code : Option ℕ
  pub response_json : Option String

abbrev pub bare_reservation : ReservationStatus → Reservation
bare_reservation s = record { status = s; status_code = none; response_json = none }

-- `PRIMARY KEY (principal_id, method, route_key, idempotency_key)`.
pub record RowKey : Type 0 where
  pub principal_id : String
  pub method : String
  pub route_key : String
  pub idempotency_key : String

abbrev pub same_row_key : RowKey → RowKey → Bool
same_row_key a b =
    str_eq a.principal_id b.principal_id
    && (str_eq a.method b.method
        && (str_eq a.route_key b.route_key && str_eq a.idempotency_key b.idempotency_key))

pub same_row_key_iff : (a b : RowKey) → (same_row_key a b ≡ true) ↔ (a ≡ b)
same_row_key_iff a b = (
  (λ h. ground (
    arith,
    eq_iff a.principal_id b.principal_id,
    eq_iff a.method b.method,
    eq_iff a.route_key b.route_key,
    eq_iff a.idempotency_key b.idempotency_key,
  )),
  λ h. ground (
    arith,
    eq_iff a.principal_id b.principal_id,
    eq_iff a.method b.method,
    eq_iff a.route_key b.route_key,
    eq_iff a.idempotency_key b.idempotency_key,
  ),
)

instance abbrev pub row_key_eq : Key RowKey
row_key_eq = record { same = same_row_key; same_iff = same_row_key_iff }

pub record IdempotencyRecord : Type 0 where
  pub row_key : RowKey
  pub request_sha256 : String
  pub state : IdempotencyState
  pub status_code : Option ℕ
  pub response_json : Option String
  pub created_at : ℕ
  pub completed_at : Option ℕ
  pub expires_at : ℕ

abbrev pub key_of : IdempotencyRecord → RowKey
key_of r = r.row_key

-- The table `api_idempotency_keys`.
abbrev pub Keys : Type 0
Keys = List IdempotencyRecord

-- What a mutation under a key raises; `action_raised` is the exception of the action itself.
pub data IdempotencyError : Type 0 where
  idempotency_key_required idempotency_conflict idempotency_in_progress : IdempotencyError
  lost_occupant no_response_body invalid_response_body : IdempotencyError
  action_raised : String → IdempotencyError
