-- ===== src/Gateway/Attempts.antt =====
-- internal/push/gateway.go: doSend, the loop of the attempts and what is recorded after it.
use startlink.Base.{
  ℕ, zero, suc, ◌+◌, String, Bool, true, false, not, ◌||◌, ◌∷◌, Option, none, some, if◌then◌else◌,
  str_eq, Reply, ok, err,
}
use startlink.Domain.Status.{PushStatus}
use startlink.Domain.Channel.{ChannelType}
use startlink.Records.Writes.{update_record_delivery}
use startlink.Gateway.Services.{
  Services, World, PushMessage, SendResult, SendError, Outcome, failed_with, stopped, delivered,
  tick, set_status,
}
use startlink.Gateway.Snapshot.{load_main_snap, gate_of}

-- The loop ended with a result and an error of the last call, or doSend returned within it.
pub data LoopEnd : Type 0 where
  after_send : Option SendResult → Option SendError → LoopEnd
  left : Outcome → LoopEnd

-- `lastErr == nil && result != nil && result.Success`
unfoldable pub succeeded : Option SendResult × Option SendError → Bool
succeeded (some r, none) = r.success
succeeded _ = false

-- `result != nil && !result.Retryable && lastErr == nil`
unfoldable pub hopeless : Option SendResult × Option SendError → Bool
hopeless (some r, none) = not r.retryable
hopeless _ = false

unfoldable pub send :
    Services → ChannelType → ℕ → World → (Option SendResult × Option SendError) × World
send s ch record_id w = (
  s.send_at w.calls,
  record w { calls = suc w.calls; sent = record { record_id = record_id; channel = ch } ∷ w.sent },
)

-- The early returns before an attempt.
unfoldable pub leave_for : Services → ℕ → SendError → World → LoopEnd × World
unfolding set_status
leave_for s record_id SendError.main_unavailable w = (
  left (failed_with SendError.main_unavailable),
  set_status s record_id PushStatus.queued "main task status unavailable" w,
)
leave_for s record_id SendError.main_cancelled w =
    (left stopped, set_status s record_id PushStatus.cancelled "main task cancelled" w)
leave_for s record_id e w = (
  left (failed_with SendError.main_paused),
  set_status s record_id PushStatus.queued "main task paused" w,
)

-- The status of the task before an attempt.
unfoldable pub gated :
    Services → ℕ → (World → LoopEnd × World) → Option SendError → World → LoopEnd × World
unfolding leave_for
gated s record_id go (some e) w = leave_for s record_id e w
gated s record_id go none w = go w

-- The last attempt.
unfoldable pub send_last : Services → ChannelType → ℕ → World → LoopEnd × World
unfolding send
send_last s ch record_id w =
    let answer = send s ch record_id w in (after_send answer.0.0 answer.0.1, answer.1)

-- The backoff, which the end of the context cuts short.
unfoldable pub backoff : (World → LoopEnd × World) → Option SendError → World → LoopEnd × World
unfolding tick
backoff again (some e) w = (left (failed_with e), tick w)
backoff again none w = again (tick w)

unfoldable pub retry_or_end :
    Services
    → (World → LoopEnd × World)
    → (Option SendResult × Option SendError)
    → World
    → LoopEnd × World
unfolding succeeded hopeless backoff
retry_or_end s again answer w =
    if succeeded answer || hopeless answer
    then (after_send answer.0 answer.1, w)
    else backoff again (s.interrupted_at w.calls) w

unfoldable pub send_then :
    Services → ChannelType → ℕ → (World → LoopEnd × World) → World → LoopEnd × World
unfolding send retry_or_end
send_then s ch record_id again w =
    let answer = send s ch record_id w in retry_or_end s again answer.0 answer.1

-- One round and those after it: `retries` rounds may follow this one, and `force` reads the task's
-- status anew.
unfoldable pub attempts :
    Services → PushMessage → ChannelType → ℕ → ℕ → Bool → World → LoopEnd × World
unfolding load_main_snap gate_of gated send_last send_then
attempts s m ch record_id zero force w =
    let gate = load_main_snap s force m.main_task_id w in
    gated s record_id (send_last s ch record_id) (gate_of gate.0) gate.1
attempts s m ch record_id (suc retries) force w =
    let gate = load_main_snap s force m.main_task_id w in
    gated s record_id (send_then s ch record_id (attempts s m ch record_id retries true))
      (gate_of gate.0) gate.1

-- UpdateRecordDelivery at the end of doSend.
unfoldable pub record_delivery :
    Services → ℕ → PushStatus → String → String → String → World → Reply Bool × World
unfolding update_record_delivery
record_delivery s id status provider provider_id error_msg w =
    let r =
      update_record_delivery (λ i. s.db_fails (w.calls + i)) (λ i. s.others (w.calls + i))
        (s.clock w.calls) id status provider provider_id error_msg w.records in
    (r.0, record w { records = r.1; calls = w.calls + 2 })

unfoldable pub unless_failed : Reply Bool → Outcome → Outcome
unless_failed (ok b) outcome = outcome
unless_failed err outcome = failed_with (SendError.other "database")

unfoldable pub error_text : Option SendResult → Option SendError → String
error_text result (some e) = "sender error"
error_text (some r) none = r.error_msg
error_text none none = "unknown send failure"

-- What follows the loop. The delivered mark of the cache is written too; it is not read here.
unfoldable pub conclude : Services → ChannelType → ℕ → LoopEnd → World → Outcome × World
unfolding record_delivery unless_failed error_text succeeded
conclude s ch record_id (left outcome) w = (outcome, w)
conclude s ch record_id (after_send (some r) none) w =
    if r.success
    then (let done =
          record_delivery s record_id PushStatus.sent
            (if str_eq r.provider "" then ch else r.provider) r.provider_id "" w in
        (unless_failed done.0 delivered, done.1))
    else (let done = record_delivery s record_id PushStatus.failed ch "" r.error_msg w in
        (unless_failed done.0 (failed_with (SendError.other "send failed")), done.1))
conclude s ch record_id (after_send result e) w =
    let done = record_delivery s record_id PushStatus.failed ch "" (error_text result e) w in
    (unless_failed done.0 (failed_with (SendError.other "send failed")), done.1)

-- doSend, with a record to write to.
unfoldable pub do_send : Services → PushMessage → ChannelType → ℕ → World → Outcome × World
unfolding attempts conclude set_status
do_send s m ch record_id w =
    if s.registered ch
    then (let end = attempts s m ch record_id (s.max_retry ch) false w in
        conclude s ch record_id end.0 end.1)
    else (
      failed_with SendError.suppressed,
      set_status s record_id PushStatus.unreachable "channel not found" w,
    )
