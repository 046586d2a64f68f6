-- ===== src/Tasks/Sub/Selection.antt =====
-- internal/adapter/repo/task.go: what ClaimSubTask hands out.
use startlink.Base.{
  ℕ, String, Bool, true, false, ◌&&◌, not, List, Option, none, some, ◌≡◌, refl, arith, ok, any,
  update_where, first_where, first_where-test, any-first_where, any-false_of_none, ◌-◌, ◌*◌,
  ==_refl,
}
use startlink.Domain.Status.{TaskStatus}
use startlink.Tasks.Rows.{MainTask, SubTask}
use startlink.Tasks.Sub.{claim_update, claimable, claim_row, claim_sub_task, main_open}
use startlink.Tasks.Sub.Claims.{IsHeld}

-- What a claim by `w` gives: `t'` was an unlocked row of the table that could be claimed, the first
-- such in the order of the ids; it is now running under `w` since `now`; the other rows are as
-- they were.
pub record Claimed (locked : ℕ → Bool) (now : ℕ) (w : String) (timeout : ℕ) (mains : List MainTask)
    (subs subs' : List SubTask) (t' : SubTask) : Type 0 where
  pub from : SubTask
  pub first : first_where (λ t. not (locked t.id) && claimable mains timeout t) subs ≡ some from
  pub was_open : main_open mains from.main_task_id ≡ true
  pub unlocked : locked from.id ≡ false
  pub row : t' ≡ record from {
    status = TaskStatus.running;
    worker_id = w;
    claimed_at = some now;
    started_at = some now;
  }
  pub held : IsHeld w now t'
  pub table :
      subs' ≡ update_where (claim_update now from.id w).hits (claim_update now from.id w).sets subs

-- A row that may be claimed is one that the update takes.
claimable-hits :
    (mains : List MainTask) (timeout now : ℕ) (w : String) (t : SubTask)
    → claimable mains timeout t ≡ true
    → (claim_update now t.id w).hits t ≡ true
unfolding claimable claim_update
claimable-hits mains timeout now w t h = ground (arith, ==_refl t.id)

claim_row-none :
    (now : ℕ) (w : String) (o : Option SubTask) (subs subs' : List SubTask)
    → ((t : SubTask) → o ≡ some t → any (claim_update now t.id w).hits subs ≡ true)
    → claim_row now w o subs ≡ (none, subs')
    → (o ≡ none) × (subs' ≡ subs)
unfolding claim_row
claim_row-none now w none subs subs' any_hit h = (refl, ground arith)
claim_row-none now w (some t) subs subs' any_hit h = ground (arith, any_hit t refl)

-- An idle poll means that no unlocked sub task may be claimed, and it changes nothing.
pub claim_sub_task-none :
    (locked : ℕ → Bool) (now : ℕ) (w : String) (timeout_sec : ℕ) (mains : List MainTask)
    (subs subs' : List SubTask)
    → claim_sub_task false locked now w timeout_sec mains subs ≡ (ok none, subs')
    → (any (λ t. not (locked t.id) && claimable mains (now - timeout_sec * 1000000000) t) subs
        ≡ false)
      × (subs' ≡ subs)
unfolding claim_sub_task
claim_sub_task-none locked now w timeout_sec mains subs subs' h =
    let timeout : ℕ = now - timeout_sec * 1000000000 in
    let test = λ (t : SubTask). not (locked t.id) && claimable mains timeout t in
    let found = λ (t : SubTask) (e : first_where test subs ≡ some t).
      any-first_where test (claim_update now t.id w).hits subs t e
        (claimable-hits mains timeout now w t (ground (arith, first_where-test test subs t e))) in
    let (missing, same) =
      claim_row-none now w (first_where test subs) subs subs' found (ground arith) in
    (any-false_of_none test subs missing, same)
