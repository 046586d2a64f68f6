-- ===== src/Examples/Aggregator.antt =====
-- internal/scheduler/aggregator.go: a campaign of two sub tasks whose second has just ended.
use startlink.Base.{false, [], ◌∷◌, none, some, ◌≡◌, refl, arith}
use startlink.Domain.Status.{TaskStatus}
use startlink.Tasks.Rows.{MainTask}
use startlink.Aggregator.Steps.{Services, World, on_sub_finished}
use startlink.Aggregator.Once.{on_sub_finished-marked}

abbrev campaign : MainTask
campaign = record {
  id = 7;
  status = TaskStatus.running;
  version = 3;
  total_count = 200;
  success_count = 0;
  fail_count = 0;
  sub_task_total = 2;
  sub_task_done = 1;
  split_owner = "";
  split_lease_at = none;
  scheduled_at = none;
  started_at = some 10;
  finished_at = none;
  updated_at = 20;
}

abbrev services : Services
services = record {
  clock = λ i. 1000;
  db_fails = λ i. false;
  cache_fails = λ i. false;
  others = λ i rows. rows;
  other_marks = λ i marks. marks;
  sub_done_at = λ i. some 2;
  totals_at = λ i. some (180, 20);
  outcomes_at = λ i. none;
}

abbrev start : World
start = record { calls = 0; mains = campaign ∷ []; marks = []; writes = []; notices = [] }

abbrev marked : World
marked = record start { marks = record { main_id = 7; sub_id = 71 } ∷ [] }

on_sub_finished-marked_example : (on_sub_finished services 7 71 marked).1.writes ≡ []
on_sub_finished-marked_example =
    on_sub_finished-marked services 7 71 marked (λ e. omega arith) (λ n marks h. h) refl
