-- ===== src/Domain/Status/Progress.antt =====
-- internal/domain/status.go: what the status rules allow of a delivered record.
use startlink.Base.{ℕ, ◌≤◌, true, ◌≡◌, ◌⊎◌, arith}
use startlink.Domain.Status.{PushStatus, delivered_ok, can_transit_to}

-- How far a delivery has come: queued, sending, sent, delivered, clicked; the rest are stops.
abbrev pub stage : PushStatus → ℕ
stage PushStatus.sending = 1
stage PushStatus.sent = 2
stage PushStatus.delivered = 3
stage PushStatus.clicked = 4
stage _ = 0

-- From a delivered status an allowed change goes forward or to `failed`; it reaches a reclaimable
-- status in no other way.
pub transit-forward :
    (s t : PushStatus)
    → delivered_ok s ≡ true
    → can_transit_to s t ≡ true
    → ((delivered_ok t ≡ true) × (stage s ≤ stage t)) ⊎ (t ≡ PushStatus.failed)
unfolding can_transit_to delivered_ok
transit-forward s t d h = ground arith
