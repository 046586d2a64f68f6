-- ===== src/Scheduler/Worker.antt =====
-- internal/scheduler/worker.go: publishMsgs, processSubTask and one round of loopClaim, in the order
-- of their calls.
pub mod Published
pub mod Fenced
pub mod Released
use startlink.Base.{
  ℕ, zero, suc, ◌+◌, ◌%◌, String, Bool, true, false, not, ◌&&◌, ◌||◌, List, [], ◌∷◌, ◌++◌, Option,
  none, some, ◌==◌, ltb, str_eq, length, take, ℤ, pos, ltb_ℤ, if◌then◌else◌, Reply, ok, err,
}
use startlink.Domain.Status.{TaskStatus}
use startlink.Tasks.Rows.{MainTask, SubTask, SubPayload, UserIds, document, malformed, task_eq}
use startlink.Tasks.Sub.{
  claim_sub_task, release_sub_task, renew_sub_task_claim, update_sub_task_result,
}
use startlink.Gateway.Services.{PushMessage}
use startlink.Aggregator.Steps
use startlink.Scheduler.Campaign.{Campaign}
use startlink.Scheduler.World.{
  Services, World, calls_of, tick, now_at, load_row, on_subs, finish_sub,
}
use startlink.Scheduler.Split.{is_expired}
use startlink.Scheduler.Messages.{build_messages}

pub data WorkError : Type 0 where
  db_failed main_cancelled main_paused bad_user_ids claim_lost publish_failed aborted : WorkError

-- A nil error, or an error.
pub data Work : Type 0 where
  fine : Work
  broke : WorkError → Work

-- The broker's answer: what went out before an error stays out.
unfoldable pub after_publish : List PushMessage → Option ℕ → World → Work × World
after_publish msgs none w = (fine, record w { published = w.published ++ msgs })
after_publish msgs (some n) w =
    (broke publish_failed, record w { published = w.published ++ take n msgs })

-- w.mq.Publish
unfoldable pub publish : Services → List PushMessage → World → Work × World
publish s msgs w = after_publish msgs (s.publish_at (calls_of w)) (tick w)

unfoldable pub after_renewal : Reply Bool × World → Work × World
after_renewal (err, w) = (broke db_failed, w)
after_renewal (ok false, w) = (broke claim_lost, w)
after_renewal (ok true, w) = (fine, w)

-- renewClaim
unfoldable pub renew_claim : Services → SubTask → World → Work × World
renew_claim s st w =
    if st.id == 0 || str_eq st.worker_id ""
    then (fine, w)
    else after_renewal (on_subs s (λ f now. renew_sub_task_claim f now st.id st.worker_id) w)

abbrev pub renew_claim_every : ℕ
renew_claim_every = 50

-- The wait and the renewal before message `i`.
unfoldable pub before_message : Services → SubTask → ℕ → World → Work × World
before_message s st i w =
    if i == 0
    then (fine, w)
    else (if s.cancelled_at (calls_of w)
        then (broke aborted, w)
        else (if i % renew_claim_every == 0 then renew_claim s st w else (fine, w)))

-- `if err != nil { return err }`, and what follows.
abbrev pub then_do : Work × World → (World → Work × World) → Work × World
then_do (broke e, w) f = (broke e, w)
then_do (fine, w) f = f w

-- The loop that publishes message by message.
unfoldable pub publish_paced : Services → SubTask → ℕ → List PushMessage → World → Work × World
publish_paced s st i [] w = (fine, w)
publish_paced s st i (m ∷ ms) w =
    then_do (before_message s st i w)
      λ v. then_do (publish s (m ∷ []) v) (publish_paced s st (suc i) ms)

-- The pace under back pressure.
unfoldable pub slowed_pace : Services → ℤ → ℤ
slowed_pace s pace =
    if ltb_ℤ (pos 0) pace
    then (if ltb_ℤ (s.slow_down pace) (pos 1) then pos 1 else s.slow_down pace)
    else s.throttled_pace

unfoldable pub pace_of : Services → Campaign → World → ℤ
pace_of s c w =
    if s.has_limiter && s.throttled_at (calls_of w) then slowed_pace s c.pace_qps else c.pace_qps

-- publishMsgs
unfoldable pub publish_msgs :
    Services → Campaign → SubTask → List PushMessage → World → Work × World
publish_msgs s c st [] w = (fine, w)
publish_msgs s c st (m ∷ ms) w =
    if ltb_ℤ (pos 0) (pace_of s c w)
    then publish_paced s st 0 (m ∷ ms) (tick w)
    else publish s (m ∷ ms) (tick w)

-- UpdateSubTaskResult
unfoldable pub write_result :
    Services → SubTask → ℕ → ℕ → TaskStatus → String → World → Reply Bool × World
write_result s st success fail status last_error w =
    on_subs s
      (λ f now. update_sub_task_result f now st.id st.worker_id success fail status last_error) w

unfoldable pub answer_of : Steps.Answer × World → Work × World
answer_of (Steps.nil, w) = (fine, w)
answer_of (Steps.failure, w) = (broke db_failed, w)

-- The result is written: aggregate it, unless the claim was lost.
unfoldable pub after_result : Services → SubTask → Reply Bool × World → Work × World
after_result s st (err, w) = (broke db_failed, w)
after_result s st (ok false, w) = (fine, w)
after_result s st (ok true, w) = answer_of (finish_sub s st.main_task_id st.id w)

-- finishExpiredSubTask
unfoldable pub finish_expired_sub_task : Services → SubTask → World → Work × World
finish_expired_sub_task s st w =
    after_result s st (write_result s st 0 st.total_count TaskStatus.failed "campaign expired" w)

-- The campaign was cancelled: the error of the write is dropped.
unfoldable pub leave_cancelled : Services → SubTask → World → Work × World
leave_cancelled s st w =
    (broke main_cancelled, (write_result s st 0 0 TaskStatus.cancelled "main task cancelled" w).1)

-- ReleaseSubTask, whose error is dropped.
unfoldable pub leave_paused : Services → SubTask → World → Work × World
leave_paused s st w = (broke main_paused, (on_subs s (λ f now. release_sub_task f st.id) w).1)

-- The checks on the campaign, made twice, and what follows.
unfoldable pub unless_closed :
    Services → Campaign → SubTask → (World → Work × World) → Option MainTask × World → Work × World
unless_closed s c st next (none, w) = (broke db_failed, w)
unless_closed s c st next (some main, w) =
    if task_eq main.status TaskStatus.cancelled
    then leave_cancelled s st w
    else (if task_eq main.status TaskStatus.paused
        then leave_paused s st w
        else (if is_expired c.expire_at (now_at s w)
            then finish_expired_sub_task s st w
            else next w))

-- The messages are made: check again, publish, and write the result.
unfoldable pub send_all : Services → Campaign → SubTask → List PushMessage → World → Work × World
send_all s c st msgs w =
    unless_closed s c st
      (λ v.
        then_do (publish_msgs s c st msgs v)
          λ u. after_result s st (write_result s st (length msgs) 0 TaskStatus.success "" u))
      (load_row s st.main_task_id w)

unfoldable pub with_document : Services → Campaign → SubTask → UserIds → World → Work × World
with_document s c st malformed w = (broke bad_user_ids, w)
with_document s c st (document p) w = send_all s c st (build_messages c st p p.user_ids) w

-- processSubTask
unfoldable pub process_sub_task : Services → SubTask → World → Work × World
process_sub_task s st w =
    let c = s.content st.main_task_id in
    unless_closed s c st (with_document s c st st.user_ids) (load_row s st.main_task_id w)

-- What loopClaim does with the error of processSubTask.
unfoldable pub after_process : Services → SubTask → Work × World → World
after_process s st (fine, w) = w
after_process s st (broke main_cancelled, w) = w
after_process s st (broke main_paused, w) = w
after_process s st (broke claim_lost, w) = w
after_process s st (broke e, w) =
    (after_result s st (write_result s st 0 st.total_count TaskStatus.failed "process failed" w)).1

unfoldable pub after_claim : Services → Reply (Option SubTask) × World → World
after_claim s (err, w) = w
after_claim s (ok none, w) = w
after_claim s (ok (some st), w) = after_process s st (process_sub_task s st w)

-- One round of loopClaim; `locked` are the rows that other transactions hold.
unfoldable pub claim_round : Services → (ℕ → Bool) → String → ℕ → World → World
claim_round s locked worker timeout_sec w = after_claim s (
    on_subs s
      (λ f now.
        claim_sub_task f locked now worker timeout_sec (s.base.others (calls_of w) w.base.mains))
      w)
