-- ===== src/Idempotency/Service.antt =====
-- idempotency/service.py: `IdempotencyService`, the verbs that api/idempotency.py composes.
use incidentlens.Common.{ℕ, String, Option, Action}
use incidentlens.Idempotency.Types.{Reservation, RowKey, IdempotencyRecord, Keys, IdempotencyError}
use incidentlens.Idempotency.Store

abbrev pub reserve : RowKey → String → ℕ → Action Keys IdempotencyError Reservation
reserve k sha now = Store.reserve k sha now

abbrev pub complete : RowKey → ℕ → String → ℕ → Keys → Keys
complete k status_code response_json now = Store.mark_completed k status_code response_json now

abbrev pub keep_alive_after_failure : RowKey → ℕ → Keys → Keys
keep_alive_after_failure k now = Store.rearm_lease k now

abbrev pub get : RowKey → Keys → Option IdempotencyRecord
get k = Store.get k
