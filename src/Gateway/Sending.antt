-- ===== src/Gateway/Sending.antt =====
-- internal/push/gateway.go: newRecord, sendOne and markCancelled. The repository of the records is
-- always wired (cmd/pusher), so the path of sendOne without one is left out.
use startlink.Base.{ℕ, ◌+◌, String, Bool, true, false, ◌&&◌, Option, none, some, if◌then◌else◌}
use startlink.Domain.Status.{PushStatus}
use startlink.Domain.Channel.{ChannelType}
use startlink.Records.Rows.{PushRecord}
use startlink.Records.Claim.{ClaimReply, claimed, duplicate, in_flight, claim_error, claim_delivery}
use startlink.Gateway.Services.{
  Services, World, PushMessage, SendError, Outcome, failed_with, stopped, delivered, tick,
  set_status,
}
use startlink.Gateway.Snapshot.{check_main_gate}
use startlink.Gateway.Checks.{
  OptOutReply, passes, opted_out, undecided, check_unsubscribed, FreqReply, allowed, denied, unsure,
  allow_freq, wait_token,
}
use startlink.Gateway.Attempts.{do_send}

-- newRecord. The key, the status and the times are set by the claim.
unfoldable pub new_record : PushMessage → ChannelType → String → PushRecord
new_record m ch content = record {
  id = 0;
  main_task_id = m.main_task_id;
  sub_task_id = m.sub_task_id;
  user_id = m.user_id;
  channel = ch;
  content = content;
  status = PushStatus.queued;
  provider = ch;
  provider_id = none;
  error_msg = "";
  is_test = false;
  experiment_group = m.experiment_group;
  sent_at = none;
  updated_at = 0;
}

-- g.pushRepo.ClaimDelivery(ctx, g.newRecord(...))
unfoldable pub claim : Services → PushMessage → ChannelType → String → World → ClaimReply × World
unfolding claim_delivery new_record
claim s m ch content w =
    let r =
      claim_delivery (λ i. s.db_fails (w.calls + i)) (λ i. s.others (w.calls + i)) (s.clock w.calls)
        (s.new_id w.calls) (new_record m ch content) w.records in
    (r.0, record w { records = r.1; calls = w.calls + 4 })

-- A claim that is followed by a status alone: markCancelled, markExpired, and a message that
-- cannot be rendered.
unfoldable pub settle : Services → PushStatus → String → ClaimReply × World → World
unfolding set_status
settle s status reason (claimed id, w) = set_status s id status reason w
settle s status reason (duplicate id, w) = w
settle s status reason (in_flight id, w) = w
settle s status reason (claim_error, w) = w

-- markCancelled, with its error dropped as its callers drop it.
unfoldable pub mark_cancelled : Services → PushMessage → ChannelType → String → World → World
unfolding claim settle
mark_cancelled s m ch content w =
    settle s PushStatus.cancelled "main task cancelled" (claim s m ch content w)

-- The check of the task's status after the wait for a token, and doSend.
unfoldable pub after_gate :
    Services → PushMessage → ChannelType → ℕ → Option SendError → World → Outcome × World
unfolding set_status do_send
after_gate s m ch id (some SendError.main_cancelled) w =
    (stopped, set_status s id PushStatus.cancelled "main task cancelled" w)
after_gate s m ch id (some e) w = (failed_with e, set_status s id PushStatus.queued "main task" w)
after_gate s m ch id none w = do_send s m ch id w

unfoldable pub after_wait :
    Services → PushMessage → ChannelType → ℕ → Option SendError → World → Outcome × World
unfolding set_status check_main_gate after_gate
after_wait s m ch id (some e) w =
    (failed_with e, set_status s id PushStatus.queued "channel throttled" w)
after_wait s m ch id none w =
    let gate = check_main_gate s true m.main_task_id w in after_gate s m ch id gate.0 gate.1

unfoldable pub after_freq :
    Services → PushMessage → ChannelType → ℕ → FreqReply → World → Outcome × World
unfolding set_status wait_token after_wait
after_freq s m ch id denied w =
    (failed_with SendError.suppressed, set_status s id PushStatus.suppressed "frequency_limit" w)
after_freq s m ch id unsure w = (
  failed_with SendError.freq_unavailable,
  set_status s id PushStatus.queued "frequency service unavailable" w,
)
after_freq s m ch id allowed w = let token = wait_token s w in after_wait s m ch id token.0 token.1

unfoldable pub after_opt_out :
    Services → PushMessage → ChannelType → ℕ → OptOutReply → World → Outcome × World
unfolding set_status allow_freq after_freq
after_opt_out s m ch id (opted_out reason) w =
    (failed_with SendError.suppressed, set_status s id PushStatus.suppressed "user unsubscribed" w)
after_opt_out s m ch id (undecided e) w =
    (failed_with e, set_status s id PushStatus.queued "opt-out unavailable" w)
after_opt_out s m ch id passes w =
    let freq = allow_freq s m ch w in after_freq s m ch id freq.0 freq.1

unfoldable pub after_claim :
    Services → PushMessage → ChannelType → ClaimReply → World → Outcome × World
unfolding check_unsubscribed after_opt_out
after_claim s m ch claim_error w = (failed_with (SendError.other "database"), w)
after_claim s m ch (duplicate id) w = (delivered, w)
after_claim s m ch (in_flight id) w = (failed_with (SendError.other "delivery in progress"), w)
after_claim s m ch (claimed id) w =
    let opt_out = check_unsubscribed s m ch w in after_opt_out s m ch id opt_out.0 opt_out.1

-- HasDelivered of the cache; its errors do not count.
unfoldable pub known_delivered : Services → World → Bool × World
unfolding tick
known_delivered s w =
    if s.has_cache
    then (elim (s.has_delivered_at w.calls) [ some true ↦ true | _ ↦ false ], tick w)
    else (false, w)

-- sendOne
unfoldable pub send_one : Services → PushMessage → ChannelType → World → Outcome × World
unfolding claim settle known_delivered after_claim
send_one s m ch w =
    let content = s.content_of m ch in
    if content.broken && m.strict_vars
    then (
      failed_with (SendError.other "missing template vars"),
      settle s PushStatus.failed "missing template vars" (claim s m ch content.body w),
    )
    else (let known = known_delivered s w in
        if known.0
        then (delivered, known.1)
        else (let c = claim s m ch content.body known.1 in after_claim s m ch c.0 c.1))
