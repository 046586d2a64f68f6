-- ===== src/Campaigns/Retrying/Reopened.antt =====
-- internal/app/campaign/service.go: the row of the campaign after Retry, where no call of the database
-- fails and no other process writes.
use startlink.Base.{
  ℕ, suc, ◌+◌, String, Bool, true, false, ◌&&◌, List, [], ◌∷◌, ◌++◌, some, ◌==◌, count_where,
  first_where-update, first_where-test, any-first_where, any, all_where, either, ◌≡◌, refl, sym, ap,
  ◌∙◌, arith, ==_refl, inl, inr, Bool-cases, Option-cases, length, update_where,
}
use startlink.Domain.Status.{TaskStatus, is_retryable}
use startlink.Tasks.Rows.{MainTask, SubTask, is_in}
use startlink.Tasks.Main.{get_main_task, reopen_main_task, reopen_update}
use startlink.Tasks.Sub.{reset_failed_sub_tasks, reset_update}
use startlink.Records.Outcomes.{distinct}
use startlink.Campaigns.{
  Services, World, Outcome, done, nothing_to_retry, not_found, get, on_mains, on_subs, read_subs,
  read_records, quiet, and_then-keeps, and_then-done, tick,
}
use startlink.Campaigns.Realigning.{is_sub_in}
use startlink.Campaigns.Realigning.Aligned.{IsAligned, realign_counters-Aligns}
use startlink.Campaigns.Retrying.{
  users_in, extra_users, clear_dedup, RetryResult, finish_retry, sync_unless, reopen_with,
  with_users, add_shards, create_shards, list_push_failed, with_failed, retry_if, retry,
}
use startlink.Campaigns.Retrying.Kept.{clear_dedup-tables, realign-subs}

-- The campaign runs, and its counters are those of its sub tasks.
pub record IsReopened (main_id : ℕ) (w : World) : Type 0 where
  pub row : MainTask
  pub there : get_main_task main_id w.mains ≡ some row
  pub runs : row.status ≡ TaskStatus.running
  pub aligned : IsAligned main_id w.subs row

retryable-is_in :
    (status : TaskStatus)
    → is_retryable status ≡ true
    → is_in (TaskStatus.failed ∷ TaskStatus.partial ∷ []) status ≡ true
unfolding is_retryable
retryable-is_in TaskStatus.draft h = cc
retryable-is_in TaskStatus.pending h = cc
retryable-is_in TaskStatus.running h = cc
retryable-is_in TaskStatus.paused h = cc
retryable-is_in TaskStatus.success h = cc
retryable-is_in TaskStatus.partial h = refl
retryable-is_in TaskStatus.failed h = refl
retryable-is_in TaskStatus.cancelled h = cc
retryable-is_in TaskStatus.retrying h = cc

module _ (s : Services) (task : MainTask) (failed : is_retryable task.status ≡ true) where
  hits-task : (now new : ℕ) → (reopen_update now task.id new).hits task ≡ true
  unfolding reopen_update
  hits-task now new = rw (==_refl task.id) (retryable-is_in task.status failed)

  reopen-any :
      (now new : ℕ) (rows : List MainTask)
      → get_main_task task.id rows ≡ some task
      → any (reopen_update now task.id new).hits rows ≡ true
  unfolding get_main_task
  reopen-any now new rows there =
      any-first_where (λ r. r.id == task.id) (reopen_update now task.id new).hits rows task there
        (hits-task now new)

  reopen-row :
      (now new : ℕ) (rows : List MainTask)
      → get_main_task task.id rows ≡ some task
      → get_main_task task.id (reopen_main_task false now task.id new rows).1
        ≡ some ((reopen_update now task.id new).sets task)
  unfolding get_main_task reopen_main_task
  reopen-row now new rows there =
      first_where-update (λ r. r.id == task.id) (reopen_update now task.id new) rows
        (λ r. unfold reopen_update in refl)
      ∙ rw (there, hits-task now new) refl

  finish-IsReopened :
      (id users reset new : ℕ) (m : MainTask) (w : World)
      → get_main_task task.id w.mains ≡ some m
      → m.status ≡ TaskStatus.running
      → IsReopened task.id (finish_retry (quiet s) id task users reset new w).1
  unfolding finish_retry get
  finish-IsReopened id users reset new m w there runs =
      let (row, found, aligned, same) = realign_counters-Aligns s task.id m w there in
      record {
        row = row;
        there = found;
        runs = same ∙ runs;
        aligned = rw (realign-subs s task.id w) aligned;
      }

  reopen_with-IsReopened :
      (id : ℕ) (f e : List String) (reset new : ℕ) (w : World) (r : RetryResult)
      → get_main_task task.id w.mains ≡ some task
      → (reopen_with (quiet s) id task f e reset new w).0 ≡ done r
      → IsReopened task.id (reopen_with (quiet s) id task f e reset new w).1
  unfolding reopen_with on_mains sync_unless reopen_main_task
  reopen_with-IsReopened id f e reset new w r there h = elim (Bool-cases (reset == 0 && new == 0)) [
    | inl idle ↦ let contra : Outcome.refused nothing_to_retry ≡ done r = rw idle at h in cc
    | inr busy ↦
        let v = clear_dedup (quiet s) task (f ++ e) w in
        let row =
          ap (λ t. get_main_task task.id t.0) (clear_dedup-tables s task (f ++ e) w) ∙ there in
        rw (busy, reopen-any (s.clock v.calls) new v.mains row)
          (finish-IsReopened id (length f + length e) reset new
            ((reopen_update (s.clock v.calls) task.id new).sets task) _
            (reopen-row (s.clock v.calls) new v.mains row) (unfold reopen_update in refl))
  ]

  add_shards-mains :
      (id : ℕ) (users : List String) (w : World)
      → (add_shards (quiet s) id users w).1.mains ≡ w.mains
  unfolding add_shards read_subs create_shards
  add_shards-mains id [] w = refl
  add_shards-mains id (u ∷ us) w = and_then-keeps (λ v. v.mains) _ _ (λ b v. refl)

  with_users-IsReopened :
      (id : ℕ) (f e : List String) (w : World) (r : RetryResult)
      → get_main_task task.id w.mains ≡ some task
      → (with_users (quiet s) id task f e w).0 ≡ done r
      → IsReopened task.id (with_users (quiet s) id task f e w).1
  unfolding with_users on_subs reset_failed_sub_tasks
  with_users-IsReopened id f e w r there =
      let reset = count_where (reset_update task.id).hits w.subs in
      let v = record w {
        calls = suc w.calls;
        subs = update_where (reset_update task.id).hits (reset_update task.id).sets w.subs;
      } in
      and_then-done (IsReopened task.id) (add_shards (quiet s) task.id e v)
        (λ new. reopen_with (quiet s) id task f e reset new) r
        (λ new given.
          reopen_with-IsReopened id f e reset new (add_shards (quiet s) task.id e v).1 r
            (ap (get_main_task task.id) (add_shards-mains task.id e v) ∙ there))

  list_push_failed-mains :
      (id : ℕ) (w : World) → (list_push_failed (quiet s) id w).1.mains ≡ w.mains
  unfolding list_push_failed read_records
  list_push_failed-mains id w =
      either (λ (r : Outcome (List String) × World). r.1.mains) s.has_push_repo _ _ w.mains refl
        refl

  with_failed-IsReopened :
      (id : ℕ) (subs : List SubTask) (w : World) (r : RetryResult)
      → get_main_task task.id w.mains ≡ some task
      → (with_failed (quiet s) id task subs w).0 ≡ done r
      → IsReopened task.id (with_failed (quiet s) id task subs w).1
  unfolding with_failed
  with_failed-IsReopened id subs w r there =
      let in_failed = distinct (users_in subs) in
      and_then-done (IsReopened task.id) (list_push_failed (quiet s) task.id w)
        (λ push_failed. with_users (quiet s) id task in_failed (extra_users in_failed push_failed))
        r
        (λ push_failed given.
          with_users-IsReopened id in_failed (extra_users in_failed push_failed)
            (list_push_failed (quiet s) task.id w).1 r
            (ap (get_main_task task.id) (list_push_failed-mains task.id w) ∙ there))

retry_if-IsReopened :
    (s : Services) (id : ℕ) (task : MainTask) (b : Bool) (w : World) (r : RetryResult)
    → is_retryable task.status ≡ b
    → get_main_task task.id w.mains ≡ some task
    → (retry_if (quiet s) id task b w).0 ≡ done r
    → IsReopened task.id (retry_if (quiet s) id task b w).1
unfolding retry_if read_subs
retry_if-IsReopened s id task false w r e there h = cc
retry_if-IsReopened s id task true w r e there h =
    with_failed-IsReopened s task e id (all_where (is_sub_in task.id TaskStatus.failed) w.subs)
      (tick w) r there h

get_main_task-id :
    (id : ℕ) (rows : List MainTask) (m : MainTask) → get_main_task id rows ≡ some m → m.id ≡ id
unfolding get_main_task
get_main_task-id id rows m h = ground (arith, first_where-test (λ r. r.id == id) rows m h)

-- By the key that the row has.
IsReopened-id : (m n : ℕ) (w : World) → m ≡ n → IsReopened m w → IsReopened n w
IsReopened-id m n w e p = rw (sym e) p

-- Where no call of the database fails and no other process writes, a retry that answers with a result
-- leaves the campaign running, with sub_task_done the number of its sub tasks in a terminal status, and
-- sub_task_total that number and the number of the others: it is not taken for finished while a sub
-- task waits.
pub retry-IsReopened :
    (s : Services) (id : ℕ) (w : World) (r : RetryResult)
    → (retry (quiet s) id w).0 ≡ done r
    → IsReopened id (retry (quiet s) id w).1
unfolding retry get
retry-IsReopened s id w r h = elim (Option-cases (get_main_task id w.mains)) [
  | inl missing ↦ let contra : Outcome.refused not_found ≡ done r = rw missing at h in cc
  | inr (task, there) ↦
      let same : task.id ≡ id = get_main_task-id id w.mains task there in
      rw there (
        IsReopened-id task.id id _ same (
          retry_if-IsReopened s id task (is_retryable task.status) (tick w) r refl
            (ap (λ n. get_main_task n w.mains) same ∙ there) (rw there at h)))
]
