-- ===== src/Examples/Campaigns.antt =====
-- internal/app/campaign: a campaign that failed in part, and one that is cancelled.
use startlink.Base.{
  ◌+◌, ◌<◌, true, false, [], ◌∷◌, none, some, pos, All, any, ◌≡◌, refl, inr, arith,
}
use startlink.Domain.Status.{TaskStatus, PushStatus, is_retryable, is_terminal}
use startlink.Domain.Channel.{ChannelMode}
use startlink.Domain.Priority.{Priority}
use startlink.Tasks.Rows.{MainTask, SubTask, document}
use startlink.Tasks.Main.{
  get_main_task, reopen_main_task, reopen_update, cancel_main_task, cancel_update,
}
use startlink.Tasks.Main.Counters.{sync_main_counters, counters_update, new_total}
use startlink.Tasks.Sub.{
  create_sub_tasks, reset_failed_sub_tasks, reset_update, cancel_unfinished_sub_tasks,
  cancel_unfinished_update,
}
use startlink.Records.Rows.{PushRecord}
use startlink.Records.Outcomes.{
  is_of, is_success, distinct, users_where, has_success, list_failed_user_ids, success_user_ids,
  has_reached, exclusive_user_ids, count_exclusive, count_user_outcomes,
}
use startlink.Scheduler.Campaign.{Campaign, channel_list, or_channel, list_or}
use startlink.Campaigns.{
  Services, World, done, quiet, get, on_mains, on_subs, read_subs, read_records, clear_delivered,
  set_sub_done,
}
use startlink.Campaigns.Control.{
  cancel, cancel_unless, after_cancel, tell_cancelled, fire_webhook, emit_inbox,
}
use startlink.Campaigns.Control.Cancelled.{is_unfinished, cancel-subs}
use startlink.Campaigns.Realigning.{
  is_sub_in, summary_of, groups, summarize_sub_tasks, switch_on, add_summaries, counts_or,
  user_counts, write_counters, realign_counters,
}
use startlink.Campaigns.Retrying.{
  parse_sub_user_ids, users_in, extra_users, next_shard, retry_shard, retry_shards, create_shards,
  add_shards, channels_or, clear_channels, clear_users, clear_dedup, fresh_status, RetryResult,
  finish_retry, sync_unless, reopen_with, with_users, list_push_failed, with_failed, retry_if,
  retry,
}
use startlink.Campaigns.Retrying.Shards.{Shard, retry_shards-Cut}
use startlink.Campaigns.Retrying.Covered.{covers, retry-Covers}
use startlink.Campaigns.Retrying.Reopened.{IsReopened, retry-IsReopened}

abbrev ended : MainTask
ended = record {
  id = 7;
  status = TaskStatus.partial;
  version = 5;
  total_count = 3;
  success_count = 1;
  fail_count = 2;
  sub_task_total = 2;
  sub_task_done = 2;
  split_owner = "";
  split_lease_at = none;
  scheduled_at = none;
  started_at = some 10;
  finished_at = some 90;
  updated_at = 90;
}

abbrev sub : SubTask
sub = record {
  id = 70;
  main_task_id = 7;
  shard_index = 0;
  user_ids = document (record {
    user_ids = "u1" ∷ "u2" ∷ [];
    channels = [];
    extras = [];
    locales = [];
    timezones = [];
  });
  total_count = 2;
  success_count = 2;
  fail_count = 0;
  status = TaskStatus.success;
  retry_count = 0;
  worker_id = "w1";
  claimed_at = some 20;
  started_at = some 20;
  finished_at = some 40;
  last_error = "";
}

abbrev failed_sub : SubTask
failed_sub = record sub {
  id = 71;
  shard_index = 1;
  user_ids =
      document
        (record { user_ids = "u3" ∷ []; channels = []; extras = []; locales = []; timezones = [] });
  total_count = 1;
  success_count = 0;
  fail_count = 1;
  status = TaskStatus.failed;
}

abbrev failed_record : PushRecord
failed_record = record {
  id = 900;
  main_task_id = 7;
  sub_task_id = 70;
  user_id = "u2";
  channel = "sms";
  content = "hello";
  status = PushStatus.failed;
  provider = "p";
  provider_id = none;
  error_msg = "rejected";
  is_test = false;
  experiment_group = "";
  sent_at = none;
  updated_at = 30;
}

abbrev content : Campaign
content = record {
  id = 7;
  biz_scene = "sale";
  topic = "";
  priority = Priority.normal;
  channel = "sms";
  channels = none;
  channel_mode = ChannelMode.single;
  template_body = "hello";
  default_locale = "";
  template_locales = [];
  strict_vars = false;
  payload = [];
  has_exclude = false;
  expire_at = none;
  pace_qps = pos 10;
  experiment_id = "";
  experiment_salt = "";
  experiment_control_percent = pos 0;
  ab_sample_percent = none;
  ab_sample_salt = "";
  max_fallback = 0;
  channel_routes = [];
  channel_costs = [];
}

abbrev services : Services
services = record {
  clock = λ i. 100 + i;
  db_fails = λ i. false;
  cache_fails = λ i. false;
  other_mains = λ i rows. rows;
  other_subs = λ i rows. rows;
  other_records = λ i rows. rows;
  new_id = λ i n. 80 + n;
  content = λ id. content;
  batch_size = 2;
  has_push_repo = true;
  has_cache = true;
  has_webhook = λ id. true;
  has_inbox = true;
}

abbrev world : World
world = record {
  calls = 0;
  mains = ended ∷ [];
  subs = sub ∷ failed_sub ∷ [];
  records = failed_record ∷ [];
  delivered = record { main_task_id = 7; user_id = "u2"; channel = "sms" } ∷ [];
  sub_done = [];
  marks = record { main_id = 7; sub_id = 70 } ∷ record { main_id = 7; sub_id = 71 } ∷ [];
  webhooks = [];
  inbox = [];
}

retry-Covers_example : any (covers 7 "u2") (retry (quiet services) 7 world).1.subs ≡ true
unfolding get_main_task is_retryable list_failed_user_ids distinct users_where is_of has_success
    is_success
retry-Covers_example =
    retry-Covers services 7 ended "u2" world (omega arith) refl refl (inr (refl, refl))

abbrev result : RetryResult
result = record {
  task_id = 7;
  status = TaskStatus.running;
  reset_subs = 1;
  new_subs = 1;
  retry_user_count = 2;
}

retried : (retry (quiet services) 7 world).0 ≡ done result
unfolding retry get get_main_task is_retryable retry_if read_subs is_sub_in with_failed
    list_push_failed read_records users_in parse_sub_user_ids distinct list_failed_user_ids
    users_where is_of has_success is_success extra_users with_users on_subs reset_failed_sub_tasks
    reset_update add_shards next_shard create_shards create_sub_tasks retry_shards retry_shard
    reopen_with clear_dedup channels_or channel_list list_or or_channel clear_users clear_channels
    clear_delivered on_mains reopen_main_task reopen_update sync_unless finish_retry
    realign_counters summarize_sub_tasks groups summary_of add_summaries switch_on user_counts
    count_user_outcomes success_user_ids count_exclusive exclusive_user_ids has_reached counts_or
    write_counters sync_main_counters counters_update new_total set_sub_done fresh_status
retried = refl

retry-IsReopened_example : IsReopened 7 (retry (quiet services) 7 world).1
retry-IsReopened_example = retry-IsReopened services 7 world result retried

retry_shards-Cut_example :
    (users_in (
        retry_shards 3 2
          (λ n. 80 + n)
          0
          7
          (next_shard 7 (sub ∷ failed_sub ∷ []))
          ("u2" ∷ "u4" ∷ "u5" ∷ []))
      ≡ "u2" ∷ "u4" ∷ "u5" ∷ [])
    × All (Shard 2 7 (next_shard 7 (sub ∷ failed_sub ∷ []))) (
        retry_shards 3 2
          (λ n. 80 + n)
          0
          7
          (next_shard 7 (sub ∷ failed_sub ∷ []))
          ("u2" ∷ "u4" ∷ "u5" ∷ []))
    × All
        (λ t. t.main_task_id ≡ 7 → t.shard_index < next_shard 7 (sub ∷ failed_sub ∷ []))
        (sub ∷ failed_sub ∷ [])
retry_shards-Cut_example =
    retry_shards-Cut 2 (λ n. 80 + n) 7 ("u2" ∷ "u4" ∷ "u5" ∷ []) (sub ∷ failed_sub ∷ [])
      (omega arith)

-- The campaign while a sub task of it runs and another waits.
abbrev under_way : World
under_way = record world {
  mains = record ended { status = TaskStatus.running; sub_task_done = 0; finished_at = none } ∷ [];
  subs =
      record sub { status = TaskStatus.running }
      ∷ record failed_sub { status = TaskStatus.pending }
      ∷ [];
}

cancelled :
    (cancel services 7 under_way).0
    ≡ done (record {
      task_id = 7;
      status = TaskStatus.cancelled;
      already_terminal = false;
      cancelled_subs = 2;
    })
unfolding cancel get get_main_task cancel_unless is_terminal on_mains cancel_main_task cancel_update
    after_cancel on_subs cancel_unfinished_sub_tasks cancel_unfinished_update tell_cancelled
    fire_webhook emit_inbox
cancelled = refl

cancel-subs_example : any (is_unfinished 7) (cancel services 7 under_way).1.subs ≡ false
cancel-subs_example =
    cancel-subs services 7 under_way
      (record {
        task_id = 7;
        status = TaskStatus.cancelled;
        already_terminal = false;
        cancelled_subs = 2;
      })
      cancelled refl refl
