-- ===== src/Scheduler/Split.antt =====
-- internal/scheduler/splitter.go: Split before and after its loop.
pub mod Targets
pub mod Reported
pub mod Bounded
use startlink.Base.{
  ℕ, suc, ◌+◌, String, Bool, true, false, not, ◌&&◌, ◌||◌, List, [], ◌∷◌, Option, none, some, ltb,
  ◌==◌, if◌then◌else◌, Reply, ok, err,
}
use startlink.Domain.Status.{TaskStatus}
use startlink.Domain.Channel.{ChannelType}
use startlink.Domain.Priority.{Priority, normalize}
use startlink.Tasks.Rows.{MainTask, task_eq}
use startlink.Tasks.Main.{clear_split_lease, pause_main_task}
use startlink.Tasks.Main.Counters.{patch_main_meta}
use startlink.Aggregator.Steps
use startlink.Scheduler.Campaign.{Campaign, channel_list}
use startlink.Scheduler.World.{Services, World, calls_of, tick, now_at, load_row, on_mains}
use startlink.Scheduler.Splitter.{
  SplitError, was_cancelled, expired, no_excluder, exclude_failed, db_failed, cancelled,
  audience_empty, Progress, at_start, LoopEnd, stopped, done, cancel_subs, split_pages,
}

-- A nil error, with the users and the shards, or an error.
pub data SplitReply : Type 0 where
  split_done : ℕ → ℕ → SplitReply
  split_failed : SplitError → SplitReply

-- ClearSplitLease, whose error is dropped.
unfoldable pub clear_lease : Services → ℕ → World → World
clear_lease s id w = (on_mains s (λ f now. clear_split_lease f now id) w).1

-- The loop of checkOverCapacity.
unfoldable pub check_channels : Services → Campaign → ℕ → List ChannelType → World → World
check_channels s c total [] w = w
check_channels s c total (ch ∷ chs) w =
    let rest = check_channels s c total chs w in
    if s.enforces ch && s.is_over ch (normalize c.priority) total && s.pauses
    then (on_mains s (λ f now. pause_main_task f now c.id) w).1
    else rest

-- checkOverCapacity
unfoldable pub check_over_capacity : Services → Campaign → ℕ → World → World
check_over_capacity s c total w =
    if not s.has_limiter || total == 0 then w else check_channels s c total (channel_list c) w

unfoldable pub after_meta : Services → Campaign → Progress → Reply Bool × World → SplitReply × World
after_meta s c p (err, w) = (split_failed db_failed, w)
after_meta s c p (ok _, w) =
    (split_done p.total p.shard, check_over_capacity s c p.total (clear_lease s c.id w))

-- UpdateMainTaskStats(ctx, main.ID, main.Version, 0, 0, 0, running)
unfoldable pub write_running : Services → MainTask → World → Reply Bool × World
write_running s main w =
    let r = Steps.write_stats s.base main.id main.version 0 TaskStatus.running w.base in
    (r.0, record w { base = r.1 })

unfoldable pub after_running :
    Services → Campaign → Progress → Reply Bool × World → SplitReply × World
after_running s c p (err, w) = (split_failed db_failed, w)
after_running s c p (ok _, w) =
    after_meta s c p (on_mains s (λ f now. patch_main_meta f now c.id p.total p.shard) w)

unfoldable pub after_check :
    Services → Campaign → MainTask → Progress → Option MainTask × World → SplitReply × World
after_check s c main p (none, w) = (split_failed db_failed, w)
after_check s c main p (some m, w) =
    if task_eq m.status TaskStatus.cancelled
    then (split_failed cancelled, cancel_subs s c.id w)
    else after_running s c p (write_running s main w)

-- `if !wroteAny { return errcode.AudienceEmpty }`
unfoldable pub after_wrote :
    Services → Campaign → MainTask → Progress → Bool → World → SplitReply × World
after_wrote s c main p false w = (split_failed audience_empty, w)
after_wrote s c main p true w = after_check s c main p (load_row s c.id w)

-- After the loop.
unfoldable pub after_pages : Services → Campaign → MainTask → LoopEnd × World → SplitReply × World
after_pages s c main (stopped e, w) = (split_failed e, w)
after_pages s c main (done p, w) = after_wrote s c main p p.wrote_any w

unfoldable pub with_excluded :
    Services → Campaign → MainTask → String → List String → World → SplitReply × World
with_excluded s c main owner excluded w =
    after_pages s c main (split_pages s c excluded owner s.max_pages at_start w)

unfoldable pub after_exclude :
    Services → Campaign → MainTask → String → Option (List String) → World → SplitReply × World
after_exclude s c main owner none w = (split_failed exclude_failed, w)
after_exclude s c main owner (some excluded) w = with_excluded s c main owner excluded w

-- Does the campaign have an exclusion list, and is there a resolver for it?
unfoldable pub with_lists :
    Services → Campaign → MainTask → String → Bool → Bool → World → SplitReply × World
with_lists s c main owner false has_excluder w = with_excluded s c main owner [] w
with_lists s c main owner true false w = (split_failed no_excluder, w)
with_lists s c main owner true true w =
    after_exclude s c main owner (s.exclude_at (calls_of w)) (tick w)

-- isExpired, at an instant. An instant here is never the zero time.
unfoldable pub is_expired : Option ℕ → ℕ → Bool
is_expired none now = false
is_expired (some at) now = ltb at now

-- Split
unfoldable pub split : Services → Campaign → MainTask → String → World → SplitReply × World
split s c main owner w =
    if task_eq main.status TaskStatus.cancelled
    then (split_failed was_cancelled, w)
    else (if is_expired c.expire_at (now_at s w)
        then (split_failed expired, w)
        else with_lists s c main owner c.has_exclude s.has_excluder w)
