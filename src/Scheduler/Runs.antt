-- ===== src/Scheduler/Runs.antt =====
-- internal/scheduler/worker.go: runSplit, and the rounds of splitPending, recoverStaleSplits and
-- reapFinishedMainTasks over the campaigns that a query lists. A split that is spawned runs at once:
-- what runs beside it are other processes.
pub mod Started
use startlink.Base.{
  ℕ, suc, String, Bool, true, false, not, ◌&&◌, List, [], ◌∷◌, Option, none, some, str_eq,
  if◌then◌else◌, Reply, ok, err,
}
use startlink.Domain.Status.{TaskStatus}
use startlink.Tasks.Rows.{MainTask, task_eq}
use startlink.Tasks.Main.{mark_main_task_running, claim_stale_split_main_task}
use startlink.Tasks.Sub.{delete_sub_tasks_by_main_task}
use startlink.Aggregator.Steps
use startlink.Scheduler.World.{Services, World, calls_of, tick, load_row, on_mains, on_subs}
use startlink.Scheduler.Splitter.{cancel_subs}
use startlink.Scheduler.Split.{SplitReply, split_done, split_failed, clear_lease, split}

-- UpdateMainTaskStats(ctx, fresh.ID, fresh.Version, 0, 0, 0, failed), whose answer is dropped.
unfoldable pub write_failed : Services → MainTask → World → World
write_failed s fresh w = record w {
  base = (Steps.write_stats s.base fresh.id fresh.version 0 TaskStatus.failed w.base).1;
}

-- EmitTaskTerminal
unfoldable pub emit_terminal : ℕ → TaskStatus → Option MainTask × World → World
emit_terminal id status (none, w) = w
emit_terminal id status (some main, w) = record w {
  base = record w.base { notices = (id, status) ∷ w.base.notices };
}

unfoldable pub give_up : Services → ℕ → MainTask → World → World
give_up s id fresh w =
    emit_terminal id TaskStatus.failed (load_row s id (clear_lease s id (write_failed s fresh w)))

-- The split failed; `none` is a campaign that could not be read.
unfoldable pub after_failure : Services → ℕ → String → MainTask → Option MainTask × World → World
after_failure s id worker fresh (none, w) = give_up s id fresh w
after_failure s id worker fresh (some cur, w) =
    if task_eq cur.status TaskStatus.cancelled
    then clear_lease s id (cancel_subs s id w)
    else (if not (str_eq cur.split_owner "") && not (str_eq cur.split_owner worker)
        then w
        else (if task_eq cur.status TaskStatus.paused
            then clear_lease s id w
            else give_up s id fresh w))

unfoldable pub after_split : Services → ℕ → String → MainTask → SplitReply × World → World
after_split s id worker fresh (split_done total shards, w) = w
after_split s id worker fresh (split_failed e, w) =
    after_failure s id worker fresh (load_row s id w)

-- DeleteSubTasksByMainTask, whose error is logged.
unfoldable pub delete_partial : Services → ℕ → World → World
delete_partial s id w = (on_subs s (λ f now. delete_sub_tasks_by_main_task f id) w).1

unfoldable pub after_fresh : Services → ℕ → String → Option MainTask × World → World
after_fresh s id worker (none, w) = w
after_fresh s id worker (some fresh, w) =
    if task_eq fresh.status TaskStatus.cancelled
    then clear_lease s id (cancel_subs s id w)
    else (if task_eq fresh.status TaskStatus.paused
        then clear_lease s id w
        else after_split s id worker fresh
            (split s (s.content id) fresh worker (delete_partial s id w)))

-- runSplit
unfoldable pub run_split : Services → ℕ → String → World → World
run_split s id worker w = after_fresh s id worker (load_row s id w)

-- Run the split if the statement took the row.
unfoldable pub spawn_if : Services → ℕ → String → Reply Bool × World → World
spawn_if s id worker (err, w) = w
spawn_if s id worker (ok false, w) = w
spawn_if s id worker (ok true, w) = run_split s id worker w

-- The loop of splitPending over the listed campaigns.
unfoldable pub split_pending : Services → String → List ℕ → World → World
split_pending s worker [] w = w
split_pending s worker (id ∷ ids) w =
    split_pending s worker ids
      (spawn_if s id worker (on_mains s (λ f now. mark_main_task_running f now id worker) w))

-- The loop of recoverStaleSplits.
unfoldable pub recover_stale_splits : Services → String → ℕ → List ℕ → World → World
recover_stale_splits s worker lease_sec [] w = w
recover_stale_splits s worker lease_sec (id ∷ ids) w = recover_stale_splits s worker lease_sec ids (
    spawn_if s id worker
      (on_mains s (λ f now. claim_stale_split_main_task f now id worker lease_sec) w))

-- The loop of reapFinishedMainTasks.
unfoldable pub reap_finished_main_tasks : Services → List ℕ → World → World
reap_finished_main_tasks s [] w = w
reap_finished_main_tasks s (id ∷ ids) w =
    reap_finished_main_tasks s ids (record w { base = (Steps.finalize_stale s.base id w.base).1 })
