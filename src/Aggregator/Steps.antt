-- ===== src/Aggregator/Steps.antt =====
-- internal/scheduler/aggregator.go: OnSubFinished, FinalizeStale and what they call. The cache is
-- always wired (cmd/scheduler). Between two calls other processes write: `others` for main_tasks,
-- `other_marks` for the marks in Redis. A call that fails writes nothing.
use startlink.Base.{
  ℕ, suc, ◌+◌, Bool, true, false, ◌&&◌, ◌||◌, List, ◌∷◌, Option, none, some, ◌==◌, ltb,
  if◌then◌else◌, any, delete_where, Reply, ok, err,
}
use startlink.Domain.Status.{TaskStatus, is_terminal}
use startlink.Tasks.Rows.{MainTask, task_eq}
use startlink.Tasks.Main.{get_main_task}
use startlink.Tasks.Main.Counters.{update_main_task_stats, sync_main_user_counts}

-- A sub task that was aggregated: the mark that TryMarkSubFinished sets.
pub record Mark : Type 0 where
  pub main_id : ℕ
  pub sub_id : ℕ

abbrev pub is_mark : ℕ → ℕ → Mark → Bool
is_mark main_id sub_id m = m.main_id == main_id && m.sub_id == sub_id

-- port.UserPushOutcomes
pub record UserOutcomes : Type 0 where
  pub has_records : Bool
  pub success_users : ℕ
  pub fail_users : ℕ

-- The answers of the database and of Redis go by the number of the call; `none` is an error.
pub record Services : Type 0 where
  pub clock : ℕ → ℕ
  pub db_fails : ℕ → Bool
  pub cache_fails : ℕ → Bool
  pub others : ℕ → List MainTask → List MainTask
  pub other_marks : ℕ → List Mark → List Mark
  pub sub_done_at : ℕ → Option ℕ  -- IncrSubDone
  pub totals_at : ℕ → Option (ℕ × ℕ)  -- GetSubDone
  pub outcomes_at : ℕ → Option UserOutcomes

-- What this aggregator had the database write: an increment of sub_task_done, a terminal status.
pub data Write : Type 0 where
  counted : ℕ → Write
  finished : ℕ → TaskStatus → Write

-- The tables, the marks, the calls made, and this aggregator's writes and notices, latest first.
pub record World : Type 0 where
  pub calls : ℕ
  pub mains : List MainTask
  pub marks : List Mark
  pub writes : List Write
  pub notices : List (ℕ × TaskStatus)

-- A nil error, or an error.
pub data Answer : Type 0 where
  nil failure : Answer

-- a.tasks.GetMainTask, where `none` is an error, a missing row among them.
unfoldable pub load_main : Services → ℕ → World → Option MainTask × World
unfolding get_main_task
load_main s id w =
    let rows = s.others w.calls w.mains in
    (
      (if s.db_fails w.calls then none else get_main_task id rows),
      record w { mains = rows; calls = suc w.calls },
    )

-- a.tasks.UpdateMainTaskStats(ctx, id, version, 0, 0, sub_done, status); the increment and the write
-- of `running` that may follow it run with no statement in between.
unfoldable pub write_stats : Services → ℕ → ℕ → ℕ → TaskStatus → World → Reply Bool × World
unfolding update_main_task_stats
write_stats s id version sub_done status w =
    let r =
      update_main_task_stats (λ i. s.db_fails (w.calls + i)) (s.clock w.calls) id version 0 0
        sub_done status (s.others w.calls w.mains) in
    (r.0, record w { mains = r.1; calls = w.calls + 2 })

-- a.cache.TryMarkSubFinished: was the mark not there before?
unfoldable pub try_mark : Services → ℕ → ℕ → World → Option Bool × World
try_mark s main_id sub_id w =
    let marks = s.other_marks w.calls w.marks in
    if s.cache_fails w.calls
    then (none, record w { marks = marks; calls = suc w.calls })
    else (if any (is_mark main_id sub_id) marks
        then (some false, record w { marks = marks; calls = suc w.calls })
        else (
          some true,
          record w {
            marks = record { main_id = main_id; sub_id = sub_id } ∷ marks;
            calls = suc w.calls;
          },
        ))

-- rollbackSubFinished
unfoldable pub rollback_sub_finished : Services → ℕ → ℕ → Bool → World → World
rollback_sub_finished s main_id sub_id false w = w
rollback_sub_finished s main_id sub_id true w =
    let marks = s.other_marks w.calls w.marks in
    record w {
      marks = if s.cache_fails w.calls then marks else delete_where (is_mark main_id sub_id) marks;
      calls = suc w.calls;
    }

-- refreshUserCounts, whose error its callers drop.
unfoldable pub sync_outcomes : Services → ℕ → Option UserOutcomes → World → World
unfolding sync_main_user_counts
sync_outcomes s id none w = w
sync_outcomes s id (some o) w =
    if o.has_records
    then record w {
      mains =
          (sync_main_user_counts (s.db_fails w.calls) (s.clock w.calls) id o.success_users
            o.fail_users (s.others w.calls w.mains)).1;
      calls = suc w.calls;
    }
    else w

unfoldable pub refresh_user_counts : Services → ℕ → World → World
unfolding sync_outcomes
refresh_user_counts s id w =
    sync_outcomes s id (s.outcomes_at w.calls) (record w { calls = suc w.calls })

-- The counts of Redis, or those of the database where Redis has lost them.
unfoldable pub known_totals : MainTask → ℕ × ℕ → ℕ × ℕ
known_totals main t = if t.0 == 0 && t.1 == 0 then (main.success_count, main.fail_count) else t

-- The `switch` on the totals.
unfoldable pub final_status : ℕ × ℕ → TaskStatus
final_status t =
    if t.1 == 0
    then TaskStatus.success
    else (if t.0 == 0 then TaskStatus.failed else TaskStatus.partial)

-- After the compare-and-swap took the row: the counts and the notice.
unfoldable pub conclude : Services → ℕ → TaskStatus → World → Answer × World
unfolding refresh_user_counts
conclude s id final w =
    let done = refresh_user_counts s id (record w { writes = finished id final ∷ w.writes }) in
    (nil, record done { notices = (id, final) ∷ done.notices })

unfoldable pub after_second : Services → ℕ → TaskStatus → Reply Bool × World → Answer × World
unfolding conclude
after_second s id final (err, w) = (failure, w)
after_second s id final (ok false, w) = (nil, w)
after_second s id final (ok true, w) = conclude s id final w

-- The compare-and-swap did not take the row: read it again, and try once more.
unfoldable pub after_reload : Services → ℕ → TaskStatus → Option MainTask → World → Answer × World
unfolding refresh_user_counts write_stats after_second
after_reload s id final none w = (failure, w)
after_reload s id final (some main) w =
    if is_terminal main.status || task_eq main.status TaskStatus.paused
    then (nil, refresh_user_counts s id w)
    else after_second s id final (write_stats s main.id main.version 0 final w)

unfoldable pub after_first : Services → ℕ → TaskStatus → Reply Bool × World → Answer × World
unfolding conclude load_main after_reload
after_first s id final (err, w) = (failure, w)
after_first s id final (ok true, w) = conclude s id final w
after_first s id final (ok false, w) = let r = load_main s id w in after_reload s id final r.0 r.1

unfoldable pub after_totals : Services → MainTask → Option (ℕ × ℕ) → World → Answer × World
unfolding known_totals final_status write_stats after_first
after_totals s main none w = (failure, w)
after_totals s main (some t) w =
    let final = final_status (known_totals main t) in
    after_first s main.id final (write_stats s main.id main.version 0 final w)

-- finalizeIfDone
unfoldable pub finalize_if_done : Services → MainTask → ℕ → World → Answer × World
unfolding after_totals
finalize_if_done s main done w =
    if main.sub_task_total == 0 || ltb done main.sub_task_total
    then (nil, w)
    else after_totals s main (s.totals_at w.calls) (record w { calls = suc w.calls })

-- `done := int64(main.SubTaskDone) + 1`, or the counter of Redis if that is larger.
unfoldable pub larger_done : ℕ → Option ℕ → ℕ
larger_done done none = done
larger_done done (some n) = if ltb done n then n else done

-- The increment of sub_task_done is made: the counter of Redis, and the end of the campaign.
unfoldable pub after_count : Services → MainTask → World → Answer × World
unfolding larger_done finalize_if_done
after_count s main w =
    let done = larger_done (main.sub_task_done + 1) (s.sub_done_at w.calls) in
    let w' = record w { calls = suc w.calls } in
    if task_eq main.status TaskStatus.paused then (nil, w') else finalize_if_done s main done w'

unfoldable pub after_stats :
    Services → MainTask → ℕ → ℕ → Bool → Reply Bool × World → Answer × World
unfolding rollback_sub_finished after_count
after_stats s main main_id sub_id marked (err, w) =
    (failure, rollback_sub_finished s main_id sub_id marked w)
after_stats s main main_id sub_id marked (ok b, w) =
    after_count s main (record w { writes = counted main.id ∷ w.writes })

-- The status that was read is terminal, or it is not.
unfoldable pub unless_ended : Services → MainTask → ℕ → ℕ → Bool → Bool → World → Answer × World
unfolding write_stats after_stats
unless_ended s main main_id sub_id marked true w = (nil, w)
unless_ended s main main_id sub_id marked false w =
    after_stats s main main_id sub_id marked (write_stats s main.id main.version 1 main.status w)

unfoldable pub count_sub : Services → MainTask → ℕ → ℕ → Bool → World → Answer × World
unfolding unless_ended is_terminal
count_sub s main main_id sub_id marked w =
    unless_ended s main main_id sub_id marked (is_terminal main.status) w

unfoldable pub after_mark : Services → MainTask → ℕ → ℕ → Option Bool × World → Answer × World
unfolding count_sub
after_mark s main main_id sub_id (none, w) = (failure, w)
after_mark s main main_id sub_id (some false, w) = (nil, w)
after_mark s main main_id sub_id (some true, w) = count_sub s main main_id sub_id true w

unfoldable pub after_load : Services → ℕ → ℕ → Option MainTask → World → Answer × World
unfolding count_sub after_mark try_mark
after_load s main_id sub_id none w = (failure, w)
after_load s main_id sub_id (some main) w =
    if sub_id == 0
    then count_sub s main main_id sub_id false w
    else after_mark s main main_id sub_id (try_mark s main_id sub_id w)

-- OnSubFinished. The counts of users go to the counters of Redis alone.
unfoldable pub on_sub_finished : Services → ℕ → ℕ → World → Answer × World
unfolding load_main after_load
on_sub_finished s main_id sub_id w =
    let r = load_main s main_id w in after_load s main_id sub_id r.0 r.1

unfoldable pub after_stale_load : Services → Option MainTask → World → Answer × World
unfolding finalize_if_done
after_stale_load s none w = (failure, w)
after_stale_load s (some main) w =
    if task_eq main.status TaskStatus.running
    then finalize_if_done s main main.sub_task_done w
    else (nil, w)

-- FinalizeStale
unfoldable pub finalize_stale : Services → ℕ → World → Answer × World
unfolding load_main after_stale_load
finalize_stale s main_id w = let r = load_main s main_id w in after_stale_load s r.0 r.1
