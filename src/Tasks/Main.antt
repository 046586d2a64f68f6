-- ===== src/Tasks/Main.antt =====
-- internal/adapter/repo/task.go: the statements on main_tasks, and the methods that run them.
-- `fails` says whether the database refuses the statement; gorm writes updated_at in each.
pub mod Counters
pub mod Statements
pub mod Lifecycle
use startlink.Base.{
  ℕ, suc, ◌+◌, ◌-◌, ◌*◌, String, Bool, true, false, not, ◌&&◌, ◌||◌, List, [], ◌∷◌, Option, none,
  some, ◌==◌, ltb, leb, if◌then◌else◌, str_eq, Update, Reply, ok, err, try_execute, first_where,
}
use startlink.Domain.Status.{TaskStatus, is_terminal}
use startlink.Tasks.Rows.{MainTask, task_eq, is_in}

abbrev second : ℕ
second = 1000000000

unfoldable pub get_main_task : ℕ → List MainTask → Option MainTask
get_main_task id = first_where (λ r. r.id == id)

-- MarkMainTaskRunning
unfoldable pub running_update : ℕ → ℕ → String → Update MainTask
running_update now id worker = record {
  hits = λ r. r.id == id && task_eq r.status TaskStatus.pending;
  sets = λ r. record r {
    status = TaskStatus.running;
    started_at = some now;
    split_owner = worker;
    split_lease_at = some now;
    updated_at = now;
  };
}

unfoldable pub mark_main_task_running :
    Bool → ℕ → ℕ → String → List MainTask → Reply Bool × List MainTask
unfolding running_update
mark_main_task_running fails now id worker = try_execute fails (running_update now id worker)

-- RenewSplitLease, and the first statement of CreateSubTasksWithLease
unfoldable pub lease_update : ℕ → ℕ → String → Update MainTask
lease_update now id worker = record {
  hits = λ r. r.id == id && task_eq r.status TaskStatus.running && str_eq r.split_owner worker;
  sets = λ r. record r { split_lease_at = some now; updated_at = now };
}

unfoldable pub renew_split_lease :
    Bool → ℕ → ℕ → String → List MainTask → Reply Bool × List MainTask
unfolding lease_update
renew_split_lease fails now id worker = try_execute fails (lease_update now id worker)

-- ClearSplitLease
unfoldable pub clear_update : ℕ → ℕ → Update MainTask
clear_update now id = record {
  hits = λ r. r.id == id;
  sets = λ r. record r { split_owner = ""; split_lease_at = none; updated_at = now };
}

unfoldable pub clear_split_lease : Bool → ℕ → ℕ → List MainTask → Reply Bool × List MainTask
unfolding clear_update
clear_split_lease fails now id = try_execute fails (clear_update now id)

-- `split_lease_at IS NULL OR split_lease_at < ?`
unfoldable pub lease_before : Option ℕ → ℕ → Bool
lease_before none deadline = true
lease_before (some at) deadline = ltb at deadline

unfoldable pub lease_deadline : ℕ → ℕ → ℕ
lease_deadline now timeout_sec = now - (if timeout_sec == 0 then 90 else timeout_sec) * second

-- ClaimStaleSplitMainTask. The transaction holds the row's lock from its read to its update, and
-- the read's tests are those of the update's WHERE clause.
unfoldable pub stale_update : ℕ → ℕ → String → ℕ → Update MainTask
unfolding lease_before lease_deadline
stale_update now id worker timeout_sec = record {
  hits = λ r.
      r.id == id
      && task_eq r.status TaskStatus.running
      && not (str_eq r.split_owner "")
      && lease_before r.split_lease_at (lease_deadline now timeout_sec);
  sets = λ r. record r {
    split_owner = worker;
    split_lease_at = some now;
    sub_task_total = 0;
    total_count = 0;
    updated_at = now;
  };
}

unfoldable pub claim_stale_split_main_task :
    Bool → ℕ → ℕ → String → ℕ → List MainTask → Reply Bool × List MainTask
unfolding stale_update
claim_stale_split_main_task fails now id worker timeout_sec =
    try_execute fails (stale_update now id worker timeout_sec)

-- CancelMainTask
unfoldable pub cancel_update : ℕ → ℕ → Update MainTask
cancel_update now id = record {
  hits = λ r.
      r.id == id
      && is_in
          (TaskStatus.pending ∷ TaskStatus.running ∷ TaskStatus.paused ∷ TaskStatus.retrying ∷ [])
          r.status;
  sets = λ r. record r {
    status = TaskStatus.cancelled;
    finished_at = some now;
    version = r.version + 1;
    updated_at = now;
  };
}

unfoldable pub cancel_main_task : Bool → ℕ → ℕ → List MainTask → Reply Bool × List MainTask
unfolding cancel_update
cancel_main_task fails now id = try_execute fails (cancel_update now id)

-- PauseMainTask
unfoldable pub pause_update : ℕ → ℕ → Update MainTask
pause_update now id = record {
  hits = λ r.
      r.id == id
      && is_in (TaskStatus.pending ∷ TaskStatus.running ∷ TaskStatus.retrying ∷ []) r.status;
  sets = λ r. record r { status = TaskStatus.paused; version = r.version + 1; updated_at = now };
}

unfoldable pub pause_main_task : Bool → ℕ → ℕ → List MainTask → Reply Bool × List MainTask
unfolding pause_update
pause_main_task fails now id = try_execute fails (pause_update now id)

-- ResumeMainTask
unfoldable pub resume_update : ℕ → ℕ → Bool → Update MainTask
resume_update now id has_sub_tasks = record {
  hits = λ r. r.id == id && task_eq r.status TaskStatus.paused;
  sets = λ r. record r {
    status = if has_sub_tasks then TaskStatus.running else TaskStatus.pending;
    finished_at = none;
    version = r.version + 1;
    updated_at = now;
  };
}

unfoldable pub resume_main_task : Bool → ℕ → ℕ → Bool → List MainTask → Reply Bool × List MainTask
unfolding resume_update
resume_main_task fails now id has_sub_tasks = try_execute fails (resume_update now id has_sub_tasks)

-- ReopenMainTask; adding no sub tasks leaves the total as it is.
unfoldable pub reopen_update : ℕ → ℕ → ℕ → Update MainTask
reopen_update now id add_sub_tasks = record {
  hits = λ r. r.id == id && is_in (TaskStatus.failed ∷ TaskStatus.partial ∷ []) r.status;
  sets = λ r. record r {
    status = TaskStatus.running;
    finished_at = none;
    version = r.version + 1;
    sub_task_total = r.sub_task_total + add_sub_tasks;
    updated_at = now;
  };
}

unfoldable pub reopen_main_task : Bool → ℕ → ℕ → ℕ → List MainTask → Reply Bool × List MainTask
unfolding reopen_update
reopen_main_task fails now id add_sub_tasks = try_execute fails (reopen_update now id add_sub_tasks)
