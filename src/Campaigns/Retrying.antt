-- ===== src/Campaigns/Retrying.antt =====
-- internal/app/campaign/service.go: Retry, buildRetryShards and parseSubUserIDs.
pub mod Shards
pub mod Kept
pub mod Covered
pub mod Reopened
pub mod Unaligned
use startlink.Base.{
  ℕ, zero, suc, ◌+◌, String, Bool, true, false, not, ◌&&◌, List, [], ◌∷◌, ◌++◌, none, some, ◌==◌,
  ltb, str_eq, length, take, drop, any, all_where, if◌then◌else◌,
}
use startlink.Domain.Status.{TaskStatus, is_retryable}
use startlink.Domain.Channel.{ChannelType}
use startlink.Tasks.Rows.{MainTask, SubTask, UserIds, document, malformed}
use startlink.Tasks.Main.{reopen_main_task}
use startlink.Tasks.Main.Counters.{sync_main_counters}
use startlink.Tasks.Sub.{create_sub_tasks, reset_failed_sub_tasks, reset_update}
use startlink.Records.Outcomes.{distinct, list_failed_user_ids}
use startlink.Scheduler.Campaign.{channel_list, or_channel}
use startlink.Campaigns.Realigning.{is_sub_in, realign_counters}
use startlink.Campaigns.{
  Services, World, Outcome, done, refused, invalid_state, nothing_to_retry, and_then, from_reply,
  tick, get, on_mains, on_subs, read_subs, read_records, clear_delivered,
}

-- parseSubUserIDs
unfoldable pub parse_sub_user_ids : UserIds → List String
parse_sub_user_ids (document p) = p.user_ids
parse_sub_user_ids malformed = []

-- The keys of inFailedSubs, less the order.
unfoldable pub users_in : List SubTask → List String
unfolding parse_sub_user_ids
users_in [] = []
users_in (t ∷ subs) = parse_sub_user_ids t.user_ids ++ users_in subs

-- extraUsers
unfoldable pub extra_users : List String → List String → List String
extra_users in_failed_subs = all_where (λ u. not (any (str_eq u) in_failed_subs))

-- MaxShardIndex, and `shard := maxIdx + 1`.
unfoldable pub next_shard : ℕ → List SubTask → ℕ
next_shard main_id [] = 0
next_shard main_id (t ∷ subs) =
    let rest = next_shard main_id subs in
    if t.main_task_id == main_id && not (ltb t.shard_index rest) then suc t.shard_index else rest

unfoldable pub retry_shard : ℕ → ℕ → ℕ → List String → SubTask
retry_shard id main_id shard batch = record {
  id = id;
  main_task_id = main_id;
  shard_index = shard;
  user_ids =
      document
        (record { user_ids = batch; channels = []; extras = []; locales = []; timezones = [] });
  total_count = length batch;
  success_count = 0;
  fail_count = 0;
  status = TaskStatus.pending;
  retry_count = 0;
  worker_id = "";
  claimed_at = none;
  started_at = none;
  finished_at = none;
  last_error = "";
}

-- The loop of buildRetryShards, on fuel; the n-th shard comes with its key `new_id n`.
unfoldable pub retry_shards : ℕ → ℕ → (ℕ → ℕ) → ℕ → ℕ → ℕ → List String → List SubTask
unfolding retry_shard
retry_shards zero size new_id n main_id shard users = []
retry_shards (suc fuel) size new_id n main_id shard [] = []
retry_shards (suc fuel) size new_id n main_id shard (u ∷ us) =
    retry_shard (new_id n) main_id shard (take size (u ∷ us))
    ∷ retry_shards fuel size new_id (suc n) main_id (suc shard) (drop size (u ∷ us))

-- CreateSubTasks
unfoldable pub create_shards : Services → ℕ → List String → ℕ → World → Outcome ℕ × World
create_shards s main_id users shard w =
    let shards =
      retry_shards (length users) s.batch_size (s.new_id w.calls) 0 main_id shard users in
    let r = create_sub_tasks (s.db_fails w.calls) shards (s.other_subs w.calls w.subs) in
    and_then (from_reply r.0, record (tick w) { subs = r.1 }) (λ b w. (done (length shards), w))

-- `if len(extraUsers) > 0`: buildRetryShards and CreateSubTasks.
unfoldable pub add_shards : Services → ℕ → List String → World → Outcome ℕ × World
add_shards s main_id [] w = (done 0, w)
add_shards s main_id (u ∷ us) w =
    and_then (read_subs s (next_shard main_id) w) (create_shards s main_id (u ∷ us))

-- The channels whose keys are cleared.
unfoldable pub channels_or : ChannelType → List ChannelType → List ChannelType
channels_or ch [] = or_channel ch
channels_or ch (c ∷ cs) = c ∷ cs

unfoldable pub clear_channels : Services → ℕ → String → List ChannelType → World → World
clear_channels s main_id user [] w = w
clear_channels s main_id user (ch ∷ chs) w =
    clear_channels s main_id user chs (clear_delivered s main_id user ch w)

unfoldable pub clear_users : Services → ℕ → List ChannelType → List String → World → World
clear_users s main_id chs [] w = w
clear_users s main_id chs (u ∷ us) w =
    clear_users s main_id chs us (clear_channels s main_id u chs w)

unfoldable pub clear_dedup : Services → MainTask → List String → World → World
clear_dedup s task users w =
    let c = s.content task.id in
    if s.has_cache
    then clear_users s task.id (channels_or c.channel (channel_list c)) users w
    else w

pub record RetryResult : Type 0 where
  pub task_id : ℕ
  pub status : TaskStatus
  pub reset_subs : ℕ
  pub new_subs : ℕ
  pub retry_user_count : ℕ

-- `status := running; if fresh != nil { status = fresh.Status }`
unfoldable pub fresh_status : Outcome MainTask → TaskStatus
fresh_status (done m) = m.status
fresh_status (refused e) = TaskStatus.running

-- What follows ReopenMainTask; an error of realignCounters is logged.
unfoldable pub finish_retry :
    Services → ℕ → MainTask → ℕ → ℕ → ℕ → World → Outcome RetryResult × World
finish_retry s id task users reset new w =
    let r = get s id (realign_counters s task.id w).1 in
    (
      done (record {
        task_id = task.id;
        status = fresh_status r.0;
        reset_subs = reset;
        new_subs = new;
        retry_user_count = users;
      }),
      r.1,
    )

-- `if !ok`: the row is no longer failed or partial.
unfoldable pub sync_unless : Services → MainTask → ℕ → Bool → World → Outcome Bool × World
sync_unless s task new true w = (done true, w)
sync_unless s task new false w =
    on_mains s
      (λ fails now.
        sync_main_counters fails now task.id task.success_count task.fail_count task.sub_task_done
          (some (task.sub_task_total + new)))
      w

unfoldable pub reopen_with :
    Services
    → ℕ
    → MainTask
    → List String
    → List String
    → ℕ
    → ℕ
    → World
    → Outcome RetryResult × World
reopen_with s id task in_failed extra reset new w =
    if reset == 0 && new == 0
    then (refused nothing_to_retry, w)
    else and_then
        (and_then
          (on_mains s (λ fails now. reopen_main_task fails now task.id new)
            (clear_dedup s task (in_failed ++ extra) w))
          (sync_unless s task new))
        (λ b. finish_retry s id task (length in_failed + length extra) reset new)

unfoldable pub with_users :
    Services → ℕ → MainTask → List String → List String → World → Outcome RetryResult × World
with_users s id task in_failed extra w =
    and_then
      (on_subs s (λ fails now. reset_failed_sub_tasks fails task.id) (λ now. reset_update task.id)
        w)
      (λ reset w.
        and_then (add_shards s task.id extra w)
          (λ new. reopen_with s id task in_failed extra reset new))

unfoldable pub list_push_failed : Services → ℕ → World → Outcome (List String) × World
list_push_failed s main_id w =
    if s.has_push_repo then read_records s (list_failed_user_ids main_id) w else (done [], w)

unfoldable pub with_failed :
    Services → ℕ → MainTask → List SubTask → World → Outcome RetryResult × World
with_failed s id task failed_subs w =
    let in_failed = distinct (users_in failed_subs) in
    and_then (list_push_failed s task.id w)
      (λ push_failed. with_users s id task in_failed (extra_users in_failed push_failed))

unfoldable pub retry_if : Services → ℕ → MainTask → Bool → World → Outcome RetryResult × World
retry_if s id task false w = (refused invalid_state, w)
retry_if s id task true w =
    and_then (read_subs s (all_where (is_sub_in task.id TaskStatus.failed)) w)
      (with_failed s id task)

-- Retry
unfoldable pub retry : Services → ℕ → World → Outcome RetryResult × World
retry s id w = and_then (get s id w) (λ task. retry_if s id task (is_retryable task.status))
