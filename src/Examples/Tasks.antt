-- ===== src/Examples/Tasks.antt =====
-- internal/adapter/repo/task.go: a campaign of two shards, and the statements of two workers on it.
use startlink.Base.{true, false, List, [], ◌∷◌, none, some, ◌≡◌, refl, arith}
use startlink.Domain.Status.{TaskStatus, is_terminal}
use startlink.Tasks.Rows.{MainTask, SubTask, malformed}
use startlink.Tasks.Main.Statements.{
  Statement, cancel, pause, count, finish, sync_users, meaning, step, run,
}
use startlink.Tasks.Main.Lifecycle.{finish_once}
use startlink.Tasks.Sub.{claimed_before}
use startlink.Tasks.Sub.Claims.{SubStatement, claim, renew, result, sub_run, IsHeld, sub_run-IsHeld}

abbrev campaign : MainTask
campaign = record {
  id = 7;
  status = TaskStatus.running;
  version = 3;
  total_count = 200;
  success_count = 0;
  fail_count = 0;
  sub_task_total = 2;
  sub_task_done = 2;
  split_owner = "";
  split_lease_at = none;
  scheduled_at = none;
  started_at = some 10;
  finished_at = none;
  updated_at = 20;
}

abbrev finished : MainTask
finished = record campaign { status = TaskStatus.success; version = 4; finished_at = some 30 }

-- What others do to the campaign.
abbrev traffic : List Statement
traffic = count 31 7 0 0 1 ∷ cancel 32 7 ∷ pause 33 7 ∷ sync_users 34 7 180 20 ∷ []

finish_once_example :
    (meaning (finish 40 7 3 TaskStatus.failed)).hits
      (run traffic (step (finish 30 7 3 TaskStatus.success) campaign))
    ≡ false
unfolding meaning
finish_once_example = finish_once traffic campaign 30 40 3 TaskStatus.success TaskStatus.failed refl

abbrev shard : SubTask
shard = record {
  id = 70;
  main_task_id = 7;
  shard_index = 0;
  user_ids = malformed;
  total_count = 100;
  success_count = 0;
  fail_count = 0;
  status = TaskStatus.running;
  retry_count = 0;
  worker_id = "worker-1";
  claimed_at = some 1000;
  started_at = some 1000;
  finished_at = none;
  last_error = "";
}

-- Another worker polls, then the holder renews and ends the shard.
abbrev contest : List SubStatement
contest =
    claim 1500 70 "worker-12" true 900
    ∷ renew 1600 70 "worker-1"
    ∷ result 1700 70 "worker-1" 100 0 TaskStatus.success ""
    ∷ []

sub_run-IsHeld_example : IsHeld "worker-1" 1000 (sub_run contest shard)
unfolding is_terminal claimed_before
sub_run-IsHeld_example =
    sub_run-IsHeld contest shard "worker-1" 1000 (omega arith, (omega arith, (refl, tt)))
      (record { holder = refl; fresh = refl; busy = refl })

abbrev waiting : SubTask
waiting = record shard {
  status = TaskStatus.pending;
  worker_id = "";
  claimed_at = none;
  started_at = none;
}

abbrev taken : SubTask
taken = record waiting {
  status = TaskStatus.running;
  worker_id = "worker-12";
  claimed_at = some 5000;
  started_at = some 5000;
}
