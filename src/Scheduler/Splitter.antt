-- ===== src/Scheduler/Splitter.antt =====
-- internal/scheduler/splitter.go: Split, the round of its loop in the order of its calls.
use startlink.Base.{
  ℕ, zero, suc, ◌+◌, String, Bool, true, false, ◌||◌, List, [], ◌∷◌, ◌++◌, Option, none, some, ltb,
  str_eq, length, if◌then◌else◌, Reply, ok, err,
}
use startlink.Domain.Status.{TaskStatus}
use startlink.Tasks.Rows.{MainTask, SubTask, document, task_eq}
use startlink.Tasks.Main.{renew_split_lease}
use startlink.Tasks.Main.Counters.{patch_main_meta}
use startlink.Tasks.Sub.{create_sub_tasks_with_lease, cancel_unfinished_sub_tasks}
use startlink.Scheduler.Campaign.{Campaign, TargetUser, AudiencePage}
use startlink.Scheduler.Batch.{Batch, empty_batch, ExperimentAssignment, add_users}
use startlink.Scheduler.World.{Services, World, calls_of, tick, now_at, load_row, on_mains, on_subs}

pub data SplitError : Type 0 where
  was_cancelled expired no_excluder exclude_failed too_many_pages too_many_users : SplitError
  db_failed cancelled paused lease_lost resolve_failed page_stuck audience_empty : SplitError

-- The variables of the loop.
pub record Progress : Type 0 where
  pub page_token : String
  pub shard : ℕ
  pub total : ℕ
  pub wrote_any : Bool

abbrev pub at_start : Progress
at_start = record { page_token = ""; shard = 0; total = 0; wrote_any = false }

-- How a round ends: `return err`, `break`, or the next round.
pub data RoundEnd : Type 0 where
  failed : SplitError → RoundEnd
  last next : Progress → RoundEnd

-- advancePageToken, after `if !page.HasMore { break }`
unfoldable pub turn_page : AudiencePage → Progress → RoundEnd
turn_page page p =
    if page.has_more
    then (if str_eq page.next_page_token "" || str_eq page.next_page_token p.page_token
        then failed page_stuck
        else next (record p { page_token = page.next_page_token }))
    else last p

-- CancelUnfinishedSubTasks, whose error is dropped.
unfoldable pub cancel_subs : Services → ℕ → World → World
cancel_subs s id w = (on_subs s (λ f now. cancel_unfinished_sub_tasks f now id) w).1

unfoldable pub new_sub_task : Services → Campaign → Batch → ℕ → World → SubTask
new_sub_task s c b shard w = record {
  id = s.new_id (calls_of w);
  main_task_id = c.id;
  shard_index = shard;
  user_ids = document b.payload;
  total_count = length b.payload.user_ids;
  success_count = 0;
  fail_count = 0;
  status = TaskStatus.pending;
  retry_count = 0;
  worker_id = "";
  claimed_at = none;
  started_at = none;
  finished_at = none;
  last_error = "";
}

-- The log of what was inserted.
unfoldable pub log_created : Reply Bool → SubTask → List SubTask → List SubTask
log_created (ok true) t ts = ts ++ (t ∷ [])
log_created _ t ts = ts

-- CreateSubTasksWithLease, two statements.
unfoldable pub insert_leased : Services → Campaign → String → SubTask → World → Reply Bool × World
insert_leased s c owner t w =
    let r =
      create_sub_tasks_with_lease (λ i. s.base.db_fails (calls_of w + i)) (now_at s w) c.id owner
        (t ∷ []) (s.base.others (calls_of w) w.base.mains) (s.other_subs (calls_of w) w.subs) in
    (
      r.0,
      record w {
        base = record w.base { mains = r.1; calls = calls_of w + 2 };
        subs = r.2;
        created = log_created r.0 t w.created;
      },
    )

-- PatchMainMeta, whose error is dropped here.
unfoldable pub patch_total : Services → ℕ → ℕ → ℕ → World → World
patch_total s id total shards w = (on_mains s (λ f now. patch_main_meta f now id total shards) w).1

unfoldable pub after_insert :
    Services → Campaign → AudiencePage → Batch → Progress → Reply Bool × World → RoundEnd × World
after_insert s c page b p (err, w) = (failed db_failed, w)
after_insert s c page b p (ok false, w) = (failed lease_lost, w)
after_insert s c page b p (ok true, w) =
    let total = p.total + length b.payload.user_ids in
    if ltb s.max_users total then (failed too_many_users, w) else (
      turn_page page (record p { shard = p.shard + 1; total = total; wrote_any = true }),
      patch_total s c.id total 0 w,
    )

-- CreateExperimentAssignments, whose error is logged.
unfoldable pub save_assigns : Services → List ExperimentAssignment → World → World
save_assigns s [] w = w
save_assigns s (a ∷ as') w =
    if s.has_push_repo
    then (if s.base.db_fails (calls_of w)
        then tick w
        else record (tick w) { assigned = w.assigned ++ (a ∷ as') })
    else w

-- `len(ids) == 0`, or the insertion.
unfoldable pub write_ids :
    Services
    → Campaign
    → String
    → AudiencePage
    → Batch
    → Progress
    → List String
    → World
    → RoundEnd × World
write_ids s c owner page b p [] w = (turn_page page p, w)
write_ids s c owner page b p (u ∷ us) w =
    after_insert s c page b p (insert_leased s c owner (new_sub_task s c b p.shard w) w)

unfoldable pub write_batch :
    Services → Campaign → String → AudiencePage → Batch → Progress → World → RoundEnd × World
write_batch s c owner page b p w =
    write_ids s c owner page b p b.payload.user_ids (save_assigns s b.assigns w)

-- `len(page.Users)`
unfoldable pub read_users :
    Services
    → Campaign
    → List String
    → String
    → AudiencePage
    → Progress
    → List TargetUser
    → World
    → RoundEnd × World
read_users s c excluded owner page p [] w = (turn_page page p, w)
read_users s c excluded owner page p (u ∷ us) w =
    write_batch s c owner page (add_users c excluded (u ∷ us) empty_batch) p w

unfoldable pub after_resolve :
    Services
    → Campaign
    → List String
    → String
    → Progress
    → Option AudiencePage × World
    → RoundEnd × World
after_resolve s c excluded owner p (none, w) = (failed resolve_failed, w)
after_resolve s c excluded owner p (some page, w) =
    read_users s c excluded owner page p page.users w

-- s.audience.Resolve
unfoldable pub resolve : Services → String → World → Option AudiencePage × World
resolve s token w = (s.resolve_at (calls_of w) token, record (tick w) { resolves = suc w.resolves })

unfoldable pub after_lease :
    Services → Campaign → List String → String → Progress → Reply Bool × World → RoundEnd × World
after_lease s c excluded owner p (err, w) = (failed db_failed, w)
after_lease s c excluded owner p (ok false, w) = (failed lease_lost, w)
after_lease s c excluded owner p (ok true, w) =
    after_resolve s c excluded owner p (resolve s p.page_token w)

-- `if owner != "" { RenewSplitLease }`
unfoldable pub renew : Services → Campaign → String → World → Reply Bool × World
renew s c owner w =
    if str_eq owner ""
    then (ok true, w)
    else on_mains s (λ f now. renew_split_lease f now c.id owner) w

unfoldable pub after_status :
    Services
    → Campaign
    → List String
    → String
    → Progress
    → Option MainTask × World
    → RoundEnd × World
after_status s c excluded owner p (none, w) = (failed db_failed, w)
after_status s c excluded owner p (some m, w) =
    if task_eq m.status TaskStatus.cancelled
    then (failed cancelled, cancel_subs s c.id w)
    else (if task_eq m.status TaskStatus.paused
        then (failed paused, w)
        else after_lease s c excluded owner p (renew s c owner w))

-- One round of the loop.
unfoldable pub round :
    Services → Campaign → List String → String → Progress → World → RoundEnd × World
round s c excluded owner p w = after_status s c excluded owner p (load_row s c.id w)

pub data LoopEnd : Type 0 where
  stopped : SplitError → LoopEnd
  done : Progress → LoopEnd

-- The loop; `pages` is what is left of maxPages.
unfoldable pub split_pages :
    Services → Campaign → List String → String → ℕ → Progress → World → LoopEnd × World
split_pages s c excluded owner zero p w = (stopped too_many_pages, w)
split_pages s c excluded owner (suc pages) p w =
    let r = round s c excluded owner p w in
    elim r.0 [
      | failed e ↦ (stopped e, r.1)
      | last q ↦ (done q, r.1)
      | next q ↦ split_pages s c excluded owner pages q r.1
    ]
