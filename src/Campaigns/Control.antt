-- ===== src/Campaigns/Control.antt =====
-- internal/app/campaign/service.go: Cancel, Pause, Resume, fireWebhook and emitInbox.
pub mod Guards
pub mod Cancelled
use startlink.Base.{ℕ, Bool, true, false, ◌∷◌, ◌&&◌, ltb, if◌then◌else◌}
use startlink.Domain.Status.{TaskStatus, is_terminal, is_pausable, is_resumable}
use startlink.Tasks.Rows.{MainTask}
use startlink.Tasks.Main.{cancel_main_task, pause_main_task, resume_main_task}
use startlink.Tasks.Sub.{cancel_unfinished_sub_tasks, cancel_unfinished_update}
use startlink.Campaigns.{
  Services, World, Outcome, done, refused, invalid_state, and_then, on_mains, on_subs, get,
}

pub record CancelResult : Type 0 where
  pub task_id : ℕ
  pub status : TaskStatus
  pub already_terminal : Bool
  pub cancelled_subs : ℕ

-- PauseResult, ResumeResult
pub record StatusResult : Type 0 where
  pub task_id : ℕ
  pub status : TaskStatus

-- fireWebhook
unfoldable pub fire_webhook : Services → MainTask → World → World
fire_webhook s task w =
    if is_terminal task.status && s.has_webhook task.id
    then record w { webhooks = (task.id, task.status) ∷ w.webhooks }
    else w

-- emitInbox, whose error is logged.
unfoldable pub emit_inbox : Services → MainTask → TaskStatus → World → World
emit_inbox s task status w =
    if s.has_inbox then record w { inbox = (task.id, status) ∷ w.inbox } else w

abbrev pub as_it_is : MainTask → Bool → CancelResult
as_it_is task terminal = record {
  task_id = task.id;
  status = task.status;
  already_terminal = terminal;
  cancelled_subs = 0;
}

-- `fresh, _ := s.Get(ctx, id)`, and the notices.
unfoldable pub tell_cancelled : Services → Outcome MainTask × World → World
tell_cancelled s (done fresh, w) = emit_inbox s fresh TaskStatus.cancelled (fire_webhook s fresh w)
tell_cancelled s (refused e, w) = w

-- The statement took the row, or it did not.
unfoldable pub after_cancel : Services → ℕ → MainTask → Bool → World → Outcome CancelResult × World
after_cancel s id task false w =
    and_then (get s id w) (λ fresh w. (done (as_it_is fresh (is_terminal fresh.status)), w))
after_cancel s id task true w =
    and_then
      (on_subs s (λ fails now. cancel_unfinished_sub_tasks fails now task.id)
        (λ now. cancel_unfinished_update now task.id) w)
      (λ n w. (
        done (record {
          task_id = task.id;
          status = TaskStatus.cancelled;
          already_terminal = false;
          cancelled_subs = n;
        }),
        tell_cancelled s (get s id w),
      ))

unfoldable pub cancel_unless : Services → ℕ → MainTask → Bool → World → Outcome CancelResult × World
cancel_unless s id task true w = (done (as_it_is task true), w)
cancel_unless s id task false w =
    and_then (on_mains s (λ fails now. cancel_main_task fails now task.id) w)
      (after_cancel s id task)

-- Cancel
unfoldable pub cancel : Services → ℕ → World → Outcome CancelResult × World
cancel s id w = and_then (get s id w) (λ task. cancel_unless s id task (is_terminal task.status))

-- `if !ok { return nil, errcode.InvalidState }`
unfoldable pub status_if : ℕ → TaskStatus → Bool → World → Outcome StatusResult × World
status_if id status true w = (done (record { task_id = id; status = status }), w)
status_if id status false w = (refused invalid_state, w)

unfoldable pub pause_if : Services → MainTask → Bool → World → Outcome StatusResult × World
pause_if s task false w = (refused invalid_state, w)
pause_if s task true w =
    and_then (on_mains s (λ fails now. pause_main_task fails now task.id) w)
      (status_if task.id TaskStatus.paused)

-- Pause
unfoldable pub pause : Services → ℕ → World → Outcome StatusResult × World
pause s id w = and_then (get s id w) (λ task. pause_if s task (is_pausable task.status))

-- `hasSubs := task.SubTaskTotal > 0`
unfoldable pub has_subs : MainTask → Bool
has_subs task = ltb 0 task.sub_task_total

unfoldable pub resume_if : Services → MainTask → Bool → World → Outcome StatusResult × World
resume_if s task false w = (refused invalid_state, w)
resume_if s task true w =
    and_then (on_mains s (λ fails now. resume_main_task fails now task.id (has_subs task)) w)
      (status_if task.id (if has_subs task then TaskStatus.running else TaskStatus.pending))

-- Resume
unfoldable pub resume : Services → ℕ → World → Outcome StatusResult × World
resume s id w = and_then (get s id w) (λ task. resume_if s task (is_resumable task.status))
