-- ===== src/Operation/Moves.antt =====
-- The lifecycle of operations/state_machine.py as plain functions of two statuses, equal to what the
-- generic machine answers. The proofs about the store read these.
use incidentlens.Common.{◌≡◌, ◌∙◌, refl, Bool, true, false, if◌then◌else◌, ok, err}
use incidentlens.Machine.Status.{OperationStatus, operation}
use incidentlens.Machine.Core.{
  can_transition, assert_transition, assert_transition_if, illegal_move,
}
use incidentlens.Machine.Tables.{operation_machine}
use incidentlens.Operation.Store.{in_terminal}

abbrev pub allowed : OperationStatus → OperationStatus → Bool
allowed OperationStatus.queued OperationStatus.running = true
allowed OperationStatus.queued OperationStatus.cancel_requested = true
allowed OperationStatus.queued OperationStatus.cancelled = true
allowed OperationStatus.running OperationStatus.cancel_requested = true
allowed OperationStatus.running OperationStatus.succeeded = true
allowed OperationStatus.running OperationStatus.failed = true
allowed OperationStatus.running OperationStatus.uncertain = true
allowed OperationStatus.cancel_requested OperationStatus.failed = true
allowed OperationStatus.cancel_requested OperationStatus.cancelled = true
allowed OperationStatus.cancel_requested OperationStatus.uncertain = true
allowed _ _ = false

abbrev pub is_done : OperationStatus → Bool
is_done OperationStatus.succeeded = true
is_done OperationStatus.failed = true
is_done OperationStatus.cancelled = true
is_done OperationStatus.uncertain = true
is_done _ = false

pub in_terminal-done : (s : OperationStatus) → in_terminal s ≡ is_done s
in_terminal-done OperationStatus.queued = refl
in_terminal-done _ = refl

-- The generic machine over the table of operations decides exactly the moves of the lifecycle.
pub can_transition-allowed :
    (s t : OperationStatus)
    → can_transition operation_machine (operation s) (operation t) ≡ allowed s t
unfolding can_transition
can_transition-allowed OperationStatus.queued OperationStatus.queued = refl
can_transition-allowed _ OperationStatus.queued = refl
can_transition-allowed OperationStatus.queued _ = refl
can_transition-allowed OperationStatus.running OperationStatus.running = refl
can_transition-allowed OperationStatus.running _ = refl
can_transition-allowed OperationStatus.cancel_requested OperationStatus.running = refl
can_transition-allowed OperationStatus.cancel_requested _ = refl
can_transition-allowed OperationStatus.succeeded OperationStatus.running = refl
can_transition-allowed OperationStatus.succeeded _ = refl
can_transition-allowed OperationStatus.failed OperationStatus.running = refl
can_transition-allowed OperationStatus.failed _ = refl
can_transition-allowed OperationStatus.cancelled OperationStatus.running = refl
can_transition-allowed OperationStatus.cancelled _ = refl
can_transition-allowed OperationStatus.uncertain OperationStatus.running = refl
can_transition-allowed OperationStatus.uncertain _ = refl

pub assert_transition-allowed :
    (s t : OperationStatus)
    → assert_transition operation_machine (operation s) (operation t)
      ≡ (if allowed s t then ok (operation t) else err (illegal_move (operation s) (operation t)))
assert_transition-allowed s t =
    assert_transition_if operation_machine (operation s) (operation t)
    ∙ rw (can_transition-allowed s t)
