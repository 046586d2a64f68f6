-- ===== src/Tasks/Sub.antt =====
-- internal/adapter/repo/task.go: the statements on sub_tasks, and the methods that run them.
pub mod Claims
pub mod Selection
use startlink.Base.{
  ℕ, suc, ◌+◌, ◌-◌, ◌*◌, String, Bool, true, false, not, ◌&&◌, ◌||◌, List, [], ◌∷◌, ◌++◌, Option,
  none, some, ◌==◌, ltb, if◌then◌else◌, str_eq, any, Update, Reply, ok, err, try_execute,
  first_where, update_where, delete_where, count_where,
}
use startlink.Domain.Status.{TaskStatus}
use startlink.Tasks.Rows.{MainTask, SubTask, task_eq, is_in}
use startlink.Tasks.Main.{lease_update}

-- CreateSubTasks: the rows come with their new keys.
unfoldable pub create_sub_tasks : Bool → List SubTask → List SubTask → Reply Bool × List SubTask
create_sub_tasks fails [] subs = (ok true, subs)
create_sub_tasks fails (t ∷ ts) subs = if fails then (err, subs) else (ok true, subs ++ (t ∷ ts))

-- CreateSubTasksWithLease: one transaction, which renews the lease and then inserts. `fails n` is
-- the failure of its n-th statement; a failure rolls both tables back.
unfoldable pub create_sub_tasks_with_lease :
    (ℕ → Bool)
    → ℕ
    → ℕ
    → String
    → List SubTask
    → List MainTask
    → List SubTask
    → Reply Bool × List MainTask × List SubTask
unfolding lease_update create_sub_tasks
create_sub_tasks_with_lease f now id worker [] mains subs = (ok true, mains, subs)
create_sub_tasks_with_lease f now id worker (t ∷ ts) mains subs =
    if str_eq worker ""
    then (let r = create_sub_tasks (f 0) (t ∷ ts) subs in (r.0, mains, r.1))
    else (if f 0
        then (err, mains, subs)
        else (if any (lease_update now id worker).hits mains
            then (if f 1 then (err, mains, subs) else (
              ok true,
              update_where (lease_update now id worker).hits (lease_update now id worker).sets
                  mains,
              subs ++ (t ∷ ts),
            ))
            else (ok false, mains, subs)))

-- DeleteSubTasksByMainTask
unfoldable pub delete_sub_tasks_by_main_task : Bool → ℕ → List SubTask → Reply ℕ × List SubTask
delete_sub_tasks_by_main_task fails main_id subs = if fails then (err, subs) else (
  ok (count_where (λ t. t.main_task_id == main_id) subs),
  delete_where (λ t. t.main_task_id == main_id) subs,
)

-- `claimed_at IS NOT NULL AND claimed_at < ?`
unfoldable pub claimed_before : Option ℕ → ℕ → Bool
claimed_before none timeout = false
claimed_before (some at) timeout = ltb at timeout

-- The join of ClaimSubTask: the campaign runs, and its split lease is cleared.
unfoldable pub main_open : List MainTask → ℕ → Bool
main_open mains main_id =
    any (λ m. m.id == main_id && task_eq m.status TaskStatus.running && str_eq m.split_owner "")
      mains

-- The WHERE clause of ClaimSubTask.
unfoldable pub claimable : List MainTask → ℕ → SubTask → Bool
unfolding main_open claimed_before
claimable mains timeout t =
    main_open mains t.main_task_id
    && (is_in (TaskStatus.pending ∷ TaskStatus.retrying ∷ []) t.status
        || task_eq t.status TaskStatus.running && claimed_before t.claimed_at timeout)

-- The UPDATE of ClaimSubTask.
unfoldable pub claim_update : ℕ → ℕ → String → Update SubTask
claim_update now id worker = record {
  hits = λ t.
      t.id == id
      && is_in (TaskStatus.pending ∷ TaskStatus.retrying ∷ TaskStatus.running ∷ []) t.status;
  sets = λ t. record t {
    status = TaskStatus.running;
    worker_id = worker;
    claimed_at = some now;
    started_at = some now;
  };
}

-- The rest of the transaction, once the row is selected and locked.
unfoldable pub claim_row :
    ℕ → String → Option SubTask → List SubTask → Option SubTask × List SubTask
unfolding claim_update
claim_row now worker none subs = (none, subs)
claim_row now worker (some t) subs =
    let u = claim_update now t.id worker in
    if any u.hits subs
    then (
      some (record t {
        status = TaskStatus.running;
        worker_id = worker;
        claimed_at = some now;
        started_at = some now;
      }),
      update_where u.hits u.sets subs,
    )
    else (none, subs)

-- ClaimSubTask: FOR UPDATE SKIP LOCKED passes over the rows that another transaction holds.
unfoldable pub claim_sub_task :
    Bool
    → (ℕ → Bool)
    → ℕ
    → String
    → ℕ
    → List MainTask
    → List SubTask
    → Reply (Option SubTask) × List SubTask
unfolding claim_row claimable
claim_sub_task fails locked now worker timeout_sec mains subs =
    if fails
    then (err, subs)
    else (let timeout = now - timeout_sec * 1000000000 in
        let r =
          claim_row now worker
            (first_where (λ t. not (locked t.id) && claimable mains timeout t) subs) subs in
        (ok r.0, r.1))

-- CancelUnfinishedSubTasks
unfoldable pub cancel_unfinished_update : ℕ → ℕ → Update SubTask
cancel_unfinished_update now main_id = record {
  hits = λ t.
      t.main_task_id == main_id
      && is_in (TaskStatus.pending ∷ TaskStatus.running ∷ TaskStatus.retrying ∷ []) t.status;
  sets = λ t. record t {
    status = TaskStatus.cancelled;
    finished_at = some now;
    last_error = "main task cancelled";
  };
}

unfoldable pub cancel_unfinished_sub_tasks : Bool → ℕ → ℕ → List SubTask → Reply Bool × List SubTask
unfolding cancel_unfinished_update
cancel_unfinished_sub_tasks fails now main_id =
    try_execute fails (cancel_unfinished_update now main_id)

-- ReleaseSubTask
unfoldable pub release_update : ℕ → Update SubTask
release_update id = record {
  hits = λ t. t.id == id && task_eq t.status TaskStatus.running;
  sets = λ t. record t {
    status = TaskStatus.pending;
    worker_id = "";
    claimed_at = none;
    started_at = none;
    last_error = "released due to pause";
  };
}

unfoldable pub release_sub_task : Bool → ℕ → List SubTask → Reply Bool × List SubTask
unfolding release_update
release_sub_task fails id = try_execute fails (release_update id)

-- RenewSubTaskClaim
unfoldable pub renew_claim_update : ℕ → ℕ → String → Update SubTask
renew_claim_update now id worker = record {
  hits = λ t. t.id == id && str_eq t.worker_id worker && task_eq t.status TaskStatus.running;
  sets = λ t. record t { claimed_at = some now };
}

unfoldable pub renew_sub_task_claim :
    Bool → ℕ → ℕ → String → List SubTask → Reply Bool × List SubTask
unfolding renew_claim_update
renew_sub_task_claim fails now id worker = try_execute fails (renew_claim_update now id worker)

-- ResetFailedSubTasks
unfoldable pub reset_update : ℕ → Update SubTask
reset_update main_id = record {
  hits = λ t. t.main_task_id == main_id && task_eq t.status TaskStatus.failed;
  sets = λ t. record t {
    status = TaskStatus.pending;
    success_count = 0;
    fail_count = 0;
    finished_at = none;
    worker_id = "";
    claimed_at = none;
    started_at = none;
    last_error = "";
    retry_count = t.retry_count + 1;
  };
}

unfoldable pub reset_failed_sub_tasks : Bool → ℕ → List SubTask → Reply Bool × List SubTask
unfolding reset_update
reset_failed_sub_tasks fails main_id = try_execute fails (reset_update main_id)

-- UpdateSubTaskResult
unfoldable pub result_update : ℕ → ℕ → String → ℕ → ℕ → TaskStatus → String → Update SubTask
result_update now id worker success fail status last_error = record {
  hits = λ t.
      t.id == id
      && str_eq t.worker_id worker
      && is_in (TaskStatus.running ∷ TaskStatus.retrying ∷ []) t.status;
  sets = λ t. record t {
    success_count = success;
    fail_count = fail;
    status = status;
    last_error = last_error;
    finished_at = some now;
  };
}

unfoldable pub update_sub_task_result :
    Bool → ℕ → ℕ → String → ℕ → ℕ → TaskStatus → String → List SubTask → Reply Bool × List SubTask
unfolding result_update
update_sub_task_result fails now id worker success fail status last_error =
    try_execute fails (result_update now id worker success fail status last_error)
