-- ===== src/Tasks/Main/Lifecycle.antt =====
-- internal/adapter/repo/task.go: what every history of the statements on main_tasks keeps.
use startlink.Base.{
  ℕ, ◌≤◌, String, true, false, List, [], ◌∷◌, str_eq_iff, ◌≡◌, ◌≢◌, refl, sym, ◌⊎◌, inl, inr, arith,
  ◌∙◌, All,
}
use startlink.Domain.Status.{TaskStatus, is_terminal}
use startlink.Tasks.Rows.{MainTask, is_in}
use startlink.Tasks.Main.Statements.{
  Statement, mark_running, renew_lease, claim_stale, reopen, finish, meaning, step, run,
}

-- The life of a campaign.
infix 40 ◌⟶◌
pub data ◌⟶◌ : TaskStatus → TaskStatus → Type 0 where
  stay : {s : TaskStatus} → s ⟶ s
  begin : TaskStatus.pending ⟶ TaskStatus.running
  retry : TaskStatus.retrying ⟶ TaskStatus.running
  to_cancel :
      {s : TaskStatus}
      → is_in
          (TaskStatus.pending ∷ TaskStatus.running ∷ TaskStatus.paused ∷ TaskStatus.retrying ∷ [])
          s
        ≡ true
      → s ⟶ TaskStatus.cancelled
  to_pause :
      {s : TaskStatus}
      → is_in (TaskStatus.pending ∷ TaskStatus.running ∷ TaskStatus.retrying ∷ []) s ≡ true
      → s ⟶ TaskStatus.paused
  to_run : TaskStatus.paused ⟶ TaskStatus.running
  to_wait : TaskStatus.paused ⟶ TaskStatus.pending
  to_reopen :
      {s : TaskStatus}
      → is_in (TaskStatus.failed ∷ TaskStatus.partial ∷ []) s ≡ true
      → s ⟶ TaskStatus.running
  to_end :
      {s t : TaskStatus}
      → is_in
          (TaskStatus.draft ∷ TaskStatus.pending ∷ TaskStatus.running ∷ TaskStatus.retrying ∷ [])
          s
        ≡ true
      → is_terminal t ≡ true
      → s ⟶ t

-- The statements of the program finish a task with a terminal status.
abbrev pub FinishesWell : Statement → Type 0
FinishesWell (finish now id version status) = is_terminal status ≡ true
FinishesWell _ = Unit

step-version : (s : Statement) (r : MainTask) → r.version ≤ (step s r).version
unfolding step meaning
step-version (mark_running now id worker) r = ground arith
step-version _ r = ground arith

-- The version never falls.
pub run-version : (ss : List Statement) (r : MainTask) → r.version ≤ (run ss r).version
unfolding run
run-version [] r = omega arith
run-version (s ∷ ss) r = omega (arith, step-version s r, run-version ss (step s r))

step-cancelled :
    (s : Statement) (r : MainTask)
    → r.status ≡ TaskStatus.cancelled
    → (step s r).status ≡ TaskStatus.cancelled
unfolding step meaning
step-cancelled (mark_running now id worker) r h = ground arith
step-cancelled _ r h = ground arith

step-success :
    (s : Statement) (r : MainTask)
    → r.status ≡ TaskStatus.success
    → (step s r).status ≡ TaskStatus.success
unfolding step meaning
step-success (mark_running now id worker) r h = ground arith
step-success _ r h = ground arith

-- A cancelled campaign stays cancelled and a successful one successful, whatever statements any
-- process runs, in any order.
pub run-IsFinal :
    (ss : List Statement) (r : MainTask)
    → (r.status ≡ TaskStatus.cancelled) ⊎ (r.status ≡ TaskStatus.success)
    → (run ss r).status ≡ r.status
unfolding run
run-IsFinal [] r h = refl
run-IsFinal (s ∷ ss) r (inl e) =
    let e' = step-cancelled s r e in run-IsFinal ss (step s r) (inl e') ∙ (e' ∙ sym e)
run-IsFinal (s ∷ ss) r (inr e) =
    let e' = step-success s r e in run-IsFinal ss (step s r) (inr e') ∙ (e' ∙ sym e)

abbrev pub NotReopen : Statement → Type 0
NotReopen (reopen now id add_sub_tasks) = ⊥
NotReopen _ = Unit

step-terminal :
    (s : Statement) (r : MainTask)
    → NotReopen s
    → is_terminal r.status ≡ true
    → (step s r).status ≡ r.status
unfolding step meaning is_terminal
step-terminal (reopen now id add_sub_tasks) r n h = elim n [ ]
step-terminal (mark_running now id worker) r n h = ground arith
step-terminal _ r n h = ground arith

-- Without a reopen (the retry of a failed or partly failed campaign), a terminal status stays.
pub run-terminal :
    (ss : List Statement) (r : MainTask)
    → All NotReopen ss
    → is_terminal r.status ≡ true
    → (run ss r).status ≡ r.status
unfolding run
run-terminal [] r n h = refl
run-terminal (s ∷ ss) r n h =
    let e = step-terminal s r n.0 h in run-terminal ss (step s r) n.1 (rw e h) ∙ e

-- The status is as it was, or the task went from pending or retrying to running.
abbrev pub SameOrBegun : TaskStatus → TaskStatus → Type 0
SameOrBegun s t =
    (t ≡ s)
    ⊎ ((t ≡ TaskStatus.running) × (is_in (TaskStatus.pending ∷ TaskStatus.retrying ∷ []) s ≡ true))

step-SameOrBegun :
    (s : Statement) (r : MainTask)
    → (step s r).version ≡ r.version
    → SameOrBegun r.status (step s r).status
unfolding step meaning
step-SameOrBegun (mark_running now id worker) r h = ground arith
step-SameOrBegun _ r h = ground arith

SameOrBegun-trans : (s t u : TaskStatus) → SameOrBegun s t → SameOrBegun t u → SameOrBegun s u
SameOrBegun-trans s t u p q = ground arith

run-SameOrBegun :
    (ss : List Statement) (r : MainTask)
    → (run ss r).version ≡ r.version
    → SameOrBegun r.status (run ss r).status
unfolding run
run-SameOrBegun [] r h = inl refl
run-SameOrBegun (s ∷ ss) r h =
    let up = step-version s r in
    let down = run-version ss (step s r) in
    SameOrBegun-trans r.status (step s r).status (run ss (step s r)).status
      (step-SameOrBegun s r (omega arith)) (run-SameOrBegun ss (step s r) (omega arith))

-- The compare-and-swap of a terminal status loses no update: if it takes a row at the version read
-- before the history `ss`, then no statement of `ss` cancelled, paused, resumed, reopened or
-- finished the campaign, which at most began to run.
pub finish-hits_SameOrBegun :
    (ss : List Statement) (r : MainTask) (now : ℕ) (t : TaskStatus)
    → (meaning (finish now r.id r.version t)).hits (run ss r) ≡ true
    → SameOrBegun r.status (run ss r).status
unfolding meaning
finish-hits_SameOrBegun ss r now t h = run-SameOrBegun ss r (ground arith)

-- At most one finisher wins: once a terminal status is written by a compare-and-swap with the
-- version `v`, no later one with `v` takes the row, whatever statements ran in between.
pub finish_once :
    (ss : List Statement) (r : MainTask) (now later v : ℕ) (t u : TaskStatus)
    → (meaning (finish now r.id v t)).hits r ≡ true
    → (meaning (finish later r.id v u)).hits (run ss (step (finish now r.id v t) r)) ≡ false
unfolding meaning step
finish_once ss r now later v t u h = ground (arith, run-version ss (step (finish now r.id v t) r))

-- The statements that give the split lease to `w`.
abbrev pub NotGrant : String → Statement → Type 0
NotGrant w (mark_running now id worker) = worker ≢ w
NotGrant w (claim_stale now id worker timeout) = worker ≢ w
NotGrant w _ = Unit

step-owner :
    (s : Statement) (r : MainTask) (w : String)
    → w ≢ ""
    → NotGrant w s
    → r.split_owner ≢ w
    → (step s r).split_owner ≢ w
unfolding step meaning
step-owner (mark_running now id worker) r w n g h = ground arith
step-owner _ r w n g h = ground arith

run-owner :
    (ss : List Statement) (r : MainTask) (w : String)
    → w ≢ ""
    → All (NotGrant w) ss
    → r.split_owner ≢ w
    → (run ss r).split_owner ≢ w
unfolding run
run-owner [] r w n g h = h
run-owner (s ∷ ss) r w n g h = run-owner ss (step s r) w n g.1 (step-owner s r w n g.0 h)

-- A worker, named by a text that is not empty, that does not hold the split lease cannot renew it
-- until it is granted the lease: through every history with no grant to it, its renewal takes no
-- row.
pub lease_fenced :
    (ss : List Statement) (r : MainTask) (w : String) (now id : ℕ)
    → w ≢ ""
    → All (NotGrant w) ss
    → r.split_owner ≢ w
    → (meaning (renew_lease now id w)).hits (run ss r) ≡ false
unfolding meaning
lease_fenced ss r w now id n g h =
    ground (arith, run-owner ss r w n g h, str_eq_iff (run ss r).split_owner w)
