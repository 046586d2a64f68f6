-- ===== src/Tasks/Main/Statements.antt =====
-- internal/adapter/repo/task.go: the statements on main_tasks as data, so that a history is a list
-- of them in the order in which the database runs them, from whatever process they come.
use startlink.Base.{
  ℕ, String, Bool, List, [], ◌∷◌, Option, none, some, ◌≡◌, refl, ap, ◌∙◌, Update, on_row,
  update_where, arith, first_where-update, ◌==◌,
}
use mathlib.Core.Option
use startlink.Domain.Status.{TaskStatus}
use startlink.Tasks.Rows.{MainTask}
use startlink.Tasks.Main.{
  running_update, lease_update, clear_update, stale_update, cancel_update, pause_update,
  resume_update, reopen_update, get_main_task,
}
use startlink.Tasks.Main.Counters.{
  count_update, keep_running_update, finish_update, meta_update, users_update, counters_update,
}

-- The first number of each is the time.
pub data Statement : Type 0 where
  mark_running : ℕ → ℕ → String → Statement
  renew_lease : ℕ → ℕ → String → Statement
  clear_lease : ℕ → ℕ → Statement
  claim_stale : ℕ → ℕ → String → ℕ → Statement
  cancel : ℕ → ℕ → Statement
  pause : ℕ → ℕ → Statement
  resume : ℕ → ℕ → Bool → Statement
  reopen : ℕ → ℕ → ℕ → Statement
  count : ℕ → ℕ → ℕ → ℕ → ℕ → Statement
  keep_running : ℕ → ℕ → Statement
  finish : ℕ → ℕ → ℕ → TaskStatus → Statement
  patch_meta : ℕ → ℕ → ℕ → ℕ → Statement
  sync_users : ℕ → ℕ → ℕ → ℕ → Statement
  sync_counters : ℕ → ℕ → ℕ → ℕ → ℕ → Option ℕ → Statement

unfoldable pub meaning : Statement → Update MainTask
unfolding running_update lease_update clear_update stale_update cancel_update pause_update
    resume_update reopen_update count_update keep_running_update finish_update meta_update
    users_update counters_update
meaning (mark_running now id worker) = running_update now id worker
meaning (renew_lease now id worker) = lease_update now id worker
meaning (clear_lease now id) = clear_update now id
meaning (claim_stale now id worker timeout) = stale_update now id worker timeout
meaning (cancel now id) = cancel_update now id
meaning (pause now id) = pause_update now id
meaning (resume now id has_sub_tasks) = resume_update now id has_sub_tasks
meaning (reopen now id add_sub_tasks) = reopen_update now id add_sub_tasks
meaning (count now id success fail sub_done) = count_update now id success fail sub_done
meaning (keep_running now id) = keep_running_update now id
meaning (finish now id version status) = finish_update now id version status
meaning (patch_meta now id total sub_total) = meta_update now id total sub_total
meaning (sync_users now id success fail) = users_update now id success fail
meaning (sync_counters now id success fail sub_done sub_total) =
    counters_update now id success fail sub_done sub_total

-- A statement's effect on one row.
unfoldable pub step : Statement → MainTask → MainTask
unfolding meaning
step s r = on_row (meaning s) r

-- A history's effect on one row, and on the table.
unfoldable pub run : List Statement → MainTask → MainTask
run [] r = r
run (s ∷ ss) r = run ss (step s r)

unfoldable pub run_table : List Statement → List MainTask → List MainTask
run_table [] rows = rows
run_table (s ∷ ss) rows = run_table ss (update_where (meaning s).hits (meaning s).sets rows)

meaning-id : (s : Statement) (r : MainTask) → ((meaning s).sets r).id ≡ r.id
unfolding meaning
meaning-id (mark_running now id worker) r = refl
meaning-id _ r = refl

pub step-id : (s : Statement) (r : MainTask) → (step s r).id ≡ r.id
unfolding step
step-id s r = ground (arith, meaning-id s r)

get-update :
    (s : Statement) (id : ℕ) (rows : List MainTask)
    → get_main_task id (update_where (meaning s).hits (meaning s).sets rows)
      ≡ Option.map (step s) (get_main_task id rows)
unfolding get_main_task step
get-update s id rows =
    first_where-update (λ r. r.id == id) (meaning s) rows (λ r. rw (meaning-id s r))

map-run :
    (s : Statement) (ss : List Statement) (o : Option MainTask)
    → Option.map (run ss) (Option.map (step s) o) ≡ Option.map (run (s ∷ ss)) o
unfolding run
map-run s ss none = refl
map-run s ss (some r) = refl

-- The row that an id finds after a history is the history's effect on the row that it found before,
-- for every id, history and table: no statement creates, deletes or renames a row.
pub get-run_table :
    (ss : List Statement) (id : ℕ) (rows : List MainTask)
    → get_main_task id (run_table ss rows) ≡ Option.map (run ss) (get_main_task id rows)
unfolding run run_table
get-run_table [] id rows = map_nil (get_main_task id rows)
  where
    map_nil : (o : Option MainTask) → o ≡ Option.map (run []) o
    map_nil none = refl
    map_nil (some r) = refl
get-run_table (s ∷ ss) id rows =
    get-run_table ss id (update_where (meaning s).hits (meaning s).sets rows)
    ∙ (ap (Option.map (run ss)) (get-update s id rows) ∙ map-run s ss (get_main_task id rows))
