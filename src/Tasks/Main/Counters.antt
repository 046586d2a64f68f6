-- ===== src/Tasks/Main/Counters.antt =====
-- internal/adapter/repo/task.go: UpdateMainTaskStats, PatchMainMeta, SyncMainUserCounts and
-- SyncMainCounters. Counts are at least 0 in every call of the program.
use startlink.Base.{
  ℕ, ◌+◌, Bool, true, false, not, ◌&&◌, ◌||◌, List, [], ◌∷◌, Option, none, some, ◌==◌,
  if◌then◌else◌, Update, Reply, ok, err, try_execute,
}
use startlink.Domain.Status.{TaskStatus, is_terminal}
use startlink.Tasks.Rows.{MainTask, task_eq, is_in}

-- The increments, made with no lock and no version.
unfoldable pub count_update : ℕ → ℕ → ℕ → ℕ → ℕ → Update MainTask
count_update now id success fail sub_done = record {
  hits = λ r. r.id == id;
  sets = λ r. record r {
    success_count = r.success_count + success;
    fail_count = r.fail_count + fail;
    sub_task_done = r.sub_task_done + sub_done;
    updated_at = now;
  };
}

-- The write of `running`, which takes no paused, cancelled or finished task.
unfoldable pub keep_running_update : ℕ → ℕ → Update MainTask
keep_running_update now id = record {
  hits = λ r.
      r.id == id
      && is_in (TaskStatus.pending ∷ TaskStatus.running ∷ TaskStatus.retrying ∷ []) r.status;
  sets = λ r. record r { status = TaskStatus.running; updated_at = now };
}

-- The compare-and-swap of a terminal status.
unfoldable pub finish_update : ℕ → ℕ → ℕ → TaskStatus → Update MainTask
finish_update now id version status = record {
  hits = λ r.
      r.id == id
      && r.version == version
      && not (
          is_in
            (TaskStatus.success ∷ TaskStatus.partial ∷ TaskStatus.failed ∷ TaskStatus.cancelled
              ∷ TaskStatus.paused ∷ [])
            r.status);
  sets = λ r. record r {
    status = status;
    version = version + 1;
    finished_at = some now;
    updated_at = now;
  };
}

-- What follows the increments; `f` says which statements fail, the write of `running` unseen.
unfoldable pub write_status :
    (ℕ → Bool) → ℕ → ℕ → ℕ → TaskStatus → List MainTask → Reply Bool × List MainTask
unfolding keep_running_update finish_update
write_status f now id version status rows =
    if not (is_terminal status)
    then (if task_eq status TaskStatus.running
        then (ok true, (try_execute (f 1) (keep_running_update now id) rows).1)
        else (ok true, rows))
    else try_execute (f 1) (finish_update now id version status) rows

unfoldable pub update_main_task_stats :
    (ℕ → Bool) → ℕ → ℕ → ℕ → ℕ → ℕ → ℕ → TaskStatus → List MainTask → Reply Bool × List MainTask
unfolding write_status count_update
update_main_task_stats f now id version success fail sub_done status rows =
    if not (success == 0) || not (fail == 0) || not (sub_done == 0)
    then (if f 0
        then (err, rows)
        else write_status f now id version status
            (try_execute false (count_update now id success fail sub_done) rows).1)
    else write_status f now id version status rows

-- PatchMainMeta
unfoldable pub meta_update : ℕ → ℕ → ℕ → ℕ → Update MainTask
meta_update now id total sub_total = record {
  hits = λ r.
      r.id == id
      && not (
          is_in
            (TaskStatus.cancelled ∷ TaskStatus.paused ∷ TaskStatus.success ∷ TaskStatus.partial
              ∷ TaskStatus.failed ∷ [])
            r.status);
  sets = λ r. record r { total_count = total; sub_task_total = sub_total; updated_at = now };
}

unfoldable pub patch_main_meta : Bool → ℕ → ℕ → ℕ → ℕ → List MainTask → Reply Bool × List MainTask
unfolding meta_update
patch_main_meta fails now id total sub_total =
    try_execute fails (meta_update now id total sub_total)

-- SyncMainUserCounts
unfoldable pub users_update : ℕ → ℕ → ℕ → ℕ → Update MainTask
users_update now id success fail = record {
  hits = λ r. r.id == id;
  sets = λ r. record r { success_count = success; fail_count = fail; updated_at = now };
}

unfoldable pub sync_main_user_counts :
    Bool → ℕ → ℕ → ℕ → ℕ → List MainTask → Reply Bool × List MainTask
unfolding users_update
sync_main_user_counts fails now id success fail =
    try_execute fails (users_update now id success fail)

-- `if subTotal >= 0 { updates["sub_task_total"] = subTotal }`; `none` is a negative total.
unfoldable pub new_total : Option ℕ → ℕ → ℕ
new_total none total = total
new_total (some n) total = n

-- SyncMainCounters
unfoldable pub counters_update : ℕ → ℕ → ℕ → ℕ → ℕ → Option ℕ → Update MainTask
unfolding new_total
counters_update now id success fail sub_done sub_total = record {
  hits = λ r. r.id == id;
  sets = λ r. record r {
    success_count = success;
    fail_count = fail;
    sub_task_done = sub_done;
    version = r.version + 1;
    sub_task_total = new_total sub_total r.sub_task_total;
    updated_at = now;
  };
}

unfoldable pub sync_main_counters :
    Bool → ℕ → ℕ → ℕ → ℕ → ℕ → Option ℕ → List MainTask → Reply Bool × List MainTask
unfolding counters_update
sync_main_counters fails now id success fail sub_done sub_total =
    try_execute fails (counters_update now id success fail sub_done sub_total)
