-- ===== src/Domain/Status.antt =====
-- internal/domain/status.go: task and delivery statuses, and the tests on them.
-- Only the constants of that file are written to the status columns.
pub mod Progress
use startlink.Base.{ℕ, Bool, true, false, ◌||◌, if◌then◌else◌, ◌==◌}

pub data TaskStatus : Type 0 where
  draft pending running paused success partial failed cancelled retrying : TaskStatus

unfoldable pub is_terminal : TaskStatus → Bool
is_terminal TaskStatus.success = true
is_terminal TaskStatus.partial = true
is_terminal TaskStatus.failed = true
is_terminal TaskStatus.cancelled = true
is_terminal _ = false

unfoldable pub is_cancellable : TaskStatus → Bool
is_cancellable TaskStatus.pending = true
is_cancellable TaskStatus.running = true
is_cancellable TaskStatus.paused = true
is_cancellable TaskStatus.retrying = true
is_cancellable _ = false

unfoldable pub is_pausable : TaskStatus → Bool
is_pausable TaskStatus.pending = true
is_pausable TaskStatus.running = true
is_pausable TaskStatus.retrying = true
is_pausable _ = false

unfoldable pub is_resumable : TaskStatus → Bool
is_resumable TaskStatus.paused = true
is_resumable _ = false

unfoldable pub is_retryable : TaskStatus → Bool
is_retryable TaskStatus.failed = true
is_retryable TaskStatus.partial = true
is_retryable _ = false

pub data PushStatus : Type 0 where
  queued sending sent delivered clicked failed cancelled : PushStatus
  suppressed unreachable expired quota_rejected : PushStatus

unfoldable pub delivered_ok : PushStatus → Bool
delivered_ok PushStatus.sent = true
delivered_ok PushStatus.delivered = true
delivered_ok PushStatus.clicked = true
delivered_ok _ = false

unfoldable pub is_suppressed_like : PushStatus → Bool
is_suppressed_like PushStatus.suppressed = true
is_suppressed_like PushStatus.unreachable = true
is_suppressed_like PushStatus.expired = true
is_suppressed_like PushStatus.quota_rejected = true
is_suppressed_like _ = false

unfoldable pub reclaimable : PushStatus → Bool
reclaimable PushStatus.failed = true
reclaimable PushStatus.cancelled = true
reclaimable PushStatus.queued = true
reclaimable PushStatus.suppressed = true
reclaimable PushStatus.unreachable = true
reclaimable PushStatus.expired = true
reclaimable PushStatus.quota_rejected = true
reclaimable _ = false

-- A number for each constant, to compare two statuses by.
abbrev pub status_code : PushStatus → ℕ
status_code PushStatus.queued = 0
status_code PushStatus.sending = 1
status_code PushStatus.sent = 2
status_code PushStatus.delivered = 3
status_code PushStatus.clicked = 4
status_code PushStatus.failed = 5
status_code PushStatus.cancelled = 6
status_code PushStatus.suppressed = 7
status_code PushStatus.unreachable = 8
status_code PushStatus.expired = 9
status_code PushStatus.quota_rejected = 10

abbrev pub status_eq : PushStatus → PushStatus → Bool
status_eq s t = status_code s == status_code t

-- `softTerminal` of `CanTransitTo`.
unfoldable pub soft_terminal : PushStatus → Bool
soft_terminal to =
    status_eq to PushStatus.failed
    || status_eq to PushStatus.cancelled
    || status_eq to PushStatus.suppressed
    || status_eq to PushStatus.unreachable
    || status_eq to PushStatus.expired
    || status_eq to PushStatus.quota_rejected

-- The `switch from` of `CanTransitTo`.
unfoldable pub moves_to : PushStatus → PushStatus → Bool
unfolding soft_terminal
moves_to PushStatus.queued to = status_eq to PushStatus.sending || soft_terminal to
moves_to PushStatus.sending to =
    status_eq to PushStatus.sent || status_eq to PushStatus.queued || soft_terminal to
moves_to PushStatus.sent to =
    status_eq to PushStatus.delivered
    || status_eq to PushStatus.clicked
    || status_eq to PushStatus.failed
moves_to PushStatus.delivered to = status_eq to PushStatus.clicked || status_eq to PushStatus.failed
moves_to PushStatus.clicked to = false
moves_to PushStatus.failed to = status_eq to PushStatus.sending || status_eq to PushStatus.queued
moves_to PushStatus.cancelled to = status_eq to PushStatus.sending || status_eq to PushStatus.queued
moves_to PushStatus.suppressed to =
    status_eq to PushStatus.sending || status_eq to PushStatus.queued
moves_to PushStatus.unreachable to =
    status_eq to PushStatus.sending || status_eq to PushStatus.queued
moves_to PushStatus.expired to = status_eq to PushStatus.sending || status_eq to PushStatus.queued
moves_to PushStatus.quota_rejected to =
    status_eq to PushStatus.sending || status_eq to PushStatus.queued

unfoldable pub can_transit_to : PushStatus → PushStatus → Bool
unfolding moves_to
can_transit_to from to = if status_eq from to then true else moves_to from to

pub data ReceiptEvent : Type 0 where
  delivered clicked failed : ReceiptEvent

-- `==` on the receipt events, which the unique key of the receipts compares by.
abbrev pub event_eq : ReceiptEvent → ReceiptEvent → Bool
event_eq ReceiptEvent.delivered ReceiptEvent.delivered = true
event_eq ReceiptEvent.clicked ReceiptEvent.clicked = true
event_eq ReceiptEvent.failed ReceiptEvent.failed = true
event_eq _ _ = false
