-- ===== src/Gateway/Acknowledged.antt =====
-- internal/push/gateway.go: what an acknowledged doSend rests on.
use startlink.Base.{ℕ, ◌≤◌, false, ◌≡◌, ok}
use startlink.Gateway.Services.{Services, World}
use startlink.Gateway.Attempts.{LoopEnd, after_send, left}

-- The loop leaves with no success, or ends with an answer of the sender to a call since `w`.
abbrev IsAnswered : Services → World → LoopEnd → Type 0
IsAnswered s w (left o) = o.ok ≡ false
IsAnswered s w (after_send r e) = (k : ℕ) × (w.calls ≤ k) × (s.send_at k ≡ (r, e))
