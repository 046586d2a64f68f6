-- ===== src/Campaigns/Realigning.antt =====
-- internal/app/campaign/service.go: realignCounters; internal/adapter/repo/task.go:
-- SummarizeSubTasks.
pub mod Exact
pub mod Aligned
use startlink.Base.{
  ℕ, ◌+◌, Bool, List, [], ◌∷◌, some, ◌==◌, ◌&&◌, count_where, sum_where, if◌then◌else◌,
}
use startlink.Domain.Status.{TaskStatus}
use startlink.Tasks.Rows.{SubTask, task_eq}
use startlink.Tasks.Main.Counters.{sync_main_counters}
use startlink.Records.Outcomes.{count_user_outcomes, UserPushOutcomes}
use startlink.Campaigns.{
  Services, World, Outcome, done, and_then, on_mains, read_subs, read_records, set_sub_done,
}

-- SubTaskStatusSummary, less user_total.
pub record StatusSummary : Type 0 where
  pub status : TaskStatus
  pub sub_count : ℕ
  pub user_success : ℕ
  pub user_fail : ℕ

unfoldable pub is_sub_in : ℕ → TaskStatus → SubTask → Bool
is_sub_in main_id status t = t.main_task_id == main_id && task_eq t.status status

unfoldable pub summary_of : ℕ → TaskStatus → List SubTask → StatusSummary
summary_of main_id status subs = record {
  status = status;
  sub_count = count_where (is_sub_in main_id status) subs;
  user_success = sum_where (is_sub_in main_id status) (λ t. t.success_count) subs;
  user_fail = sum_where (is_sub_in main_id status) (λ t. t.fail_count) subs;
}

-- GROUP BY status: a group for each status that some row has.
unfoldable pub groups : ℕ → List SubTask → List TaskStatus → List StatusSummary
groups main_id subs [] = []
groups main_id subs (status ∷ rest) =
    let others = groups main_id subs rest in
    if count_where (is_sub_in main_id status) subs == 0
    then others
    else summary_of main_id status subs ∷ others

abbrev pub all_statuses : List TaskStatus
all_statuses =
    TaskStatus.draft ∷ TaskStatus.pending ∷ TaskStatus.running ∷ TaskStatus.paused
    ∷ TaskStatus.success ∷ TaskStatus.partial ∷ TaskStatus.failed ∷ TaskStatus.cancelled
    ∷ TaskStatus.retrying ∷ []

-- SummarizeSubTasks
unfoldable pub summarize_sub_tasks : ℕ → List SubTask → List StatusSummary
summarize_sub_tasks main_id subs = groups main_id subs all_statuses

-- The variables of the loop over the summaries.
pub record Totals : Type 0 where
  pub pipe_success : ℕ
  pub pipe_fail : ℕ
  pub sub_done : ℕ
  pub total : ℕ

abbrev pub no_totals : Totals
no_totals = record { pipe_success = 0; pipe_fail = 0; sub_done = 0; total = 0 }

-- The `switch` on the status.
unfoldable pub switch_on : TaskStatus → StatusSummary → Totals → Totals
switch_on TaskStatus.success sm t = record t {
  sub_done = t.sub_done + sm.sub_count;
  pipe_success = t.pipe_success + sm.user_success;
}
switch_on TaskStatus.failed sm t = record t {
  sub_done = t.sub_done + sm.sub_count;
  pipe_fail = t.pipe_fail + sm.user_fail;
}
switch_on TaskStatus.cancelled sm t = record t {
  sub_done = t.sub_done + sm.sub_count;
  pipe_success = t.pipe_success + sm.user_success;
  pipe_fail = t.pipe_fail + sm.user_fail;
}
switch_on TaskStatus.partial sm t = record t {
  sub_done = t.sub_done + sm.sub_count;
  pipe_success = t.pipe_success + sm.user_success;
  pipe_fail = t.pipe_fail + sm.user_fail;
}
switch_on _ sm t = t

unfoldable pub add_summaries : List StatusSummary → Totals → Totals
add_summaries [] t = t
add_summaries (sm ∷ rest) t =
    add_summaries rest (switch_on sm.status sm (record t { total = t.total + sm.sub_count }))

unfoldable pub counts_or : Totals → UserPushOutcomes → ℕ × ℕ
counts_or t oc =
    if oc.has_records then (oc.success_users, oc.fail_users) else (t.pipe_success, t.pipe_fail)

unfoldable pub user_counts : Services → ℕ → Totals → World → Outcome (ℕ × ℕ) × World
user_counts s main_id t w =
    if s.has_push_repo
    then and_then (read_records s (count_user_outcomes main_id) w)
        (λ oc w. (done (counts_or t oc), w))
    else (done (t.pipe_success, t.pipe_fail), w)

unfoldable pub write_counters : Services → ℕ → Totals → ℕ × ℕ → World → Outcome (Unit {0}) × World
write_counters s main_id t users w =
    and_then
      (on_mains s
        (λ fails now.
          sync_main_counters fails now main_id users.0 users.1 t.sub_done (some t.total))
        w)
      (λ b w.
        if s.has_cache
        then set_sub_done s
            (record {
              main_id = main_id;
              success = t.pipe_success;
              fail = t.pipe_fail;
              done = t.sub_done;
            })
            w
        else (done tt, w))

-- realignCounters
unfoldable pub realign_counters : Services → ℕ → World → Outcome (Unit {0}) × World
realign_counters s main_id w =
    and_then (read_subs s (summarize_sub_tasks main_id) w) (λ summaries w.
      let t = add_summaries summaries no_totals in
      and_then (user_counts s main_id t w) (write_counters s main_id t))
