-- ===== src/Scheduler/Runs/Started.antt =====
-- internal/scheduler/worker.go: a split runs only for the worker that took the campaign.
use startlink.Base.{
  any-weaken, ℕ, String, false, ◌&&◌, List, [], ◌∷◌, any, ◌==◌, ◌≡◌, refl, ◌∙◌, arith, inl, inr,
  Bool-cases,
}
use startlink.Domain.Status.{TaskStatus}
use startlink.Tasks.Rows.{MainTask, task_eq}
use startlink.Tasks.Main.{mark_main_task_running, running_update}
use startlink.Scheduler.World.{Services, World, calls_of, on_mains}
use startlink.Scheduler.Runs.{spawn_if, split_pending}

-- Nothing was split: no sub task was inserted and no page of an audience was asked for.
abbrev pub NoSplit : World → World → Type 0
NoSplit w v = (v.created ≡ w.created) × (v.resolves ≡ w.resolves) × (v.subs ≡ w.subs)

spawn_if-NoSplit :
    (s : Services) (id : ℕ) (worker : String) (w : World)
    → ((i : ℕ) (rows : List MainTask)
        → any (λ r. task_eq r.status TaskStatus.pending) (s.base.others i rows) ≡ false)
    → NoSplit w
        (spawn_if s id worker (on_mains s (λ f now. mark_main_task_running f now id worker) w))
unfolding on_mains mark_main_task_running running_update
spawn_if-NoSplit s id worker w taken = elim (Bool-cases (s.base.db_fails (calls_of w))) [
  | inl e ↦ rw e (unfold spawn_if in (refl, refl, refl))
  | inr e ↦
      rw
        (
          e,
          any-weaken (λ r. task_eq r.status TaskStatus.pending)
              (λ r. r.id == id && task_eq r.status TaskStatus.pending)
              (s.base.others (calls_of w) w.base.mains) (λ r h. ground (arith, h))
              (taken (calls_of w) w.base.mains),
        )
        (unfold spawn_if in (refl, refl, refl))
]

-- Where no listed campaign is pending any more when its turn comes, because another scheduler took
-- it, splitPending splits nothing and leaves the sub tasks as they are.
pub split_pending-NoSplit :
    (s : Services) (worker : String) (ids : List ℕ) (w : World)
    → ((i : ℕ) (rows : List MainTask)
        → any (λ r. task_eq r.status TaskStatus.pending) (s.base.others i rows) ≡ false)
    → NoSplit w (split_pending s worker ids w)
unfolding split_pending
split_pending-NoSplit s worker [] w taken = (refl, refl, refl)
split_pending-NoSplit s worker (id ∷ ids) w taken =
    let v = spawn_if s id worker (on_mains s (λ f now. mark_main_task_running f now id worker) w) in
    let first : NoSplit w v = spawn_if-NoSplit s id worker w taken in
    let rest : NoSplit v (split_pending s worker ids v) =
      split_pending-NoSplit s worker ids v taken in
    (rest.0 ∙ first.0, rest.1 ∙ first.1, rest.2 ∙ first.2)
