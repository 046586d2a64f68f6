-- ===== src/Tasks/Sub/Claims.antt =====
-- internal/adapter/repo/task.go: what the histories of the statements on sub_tasks keep. A history
-- is the list of statements in the order in which the database runs them, from all the workers.
use startlink.Base.{
  ℕ, ◌≤◌, String, Bool, true, false, ◌&&◌, ◌||◌, List, [], ◌∷◌, Option, none, some, str_eq_iff, ◌≡◌,
  ◌≢◌, refl, arith, All, on_row, Update,
}
use startlink.Domain.Status.{TaskStatus, is_terminal}
use startlink.Tasks.Rows.{SubTask, task_eq, is_in}
use startlink.Tasks.Sub.{
  claimed_before, claim_update, cancel_unfinished_update, release_update, renew_claim_update,
  reset_update, result_update,
}

-- `claim now id worker may timeout` is a ClaimSubTask that selects the row `id`: `may` says that
-- its campaign may be worked on, `timeout` is the instant before which a claim has lapsed.
pub data SubStatement : Type 0 where
  claim : ℕ → ℕ → String → Bool → ℕ → SubStatement
  cancel_unfinished : ℕ → ℕ → SubStatement
  release : ℕ → SubStatement
  renew : ℕ → ℕ → String → SubStatement
  reset : ℕ → SubStatement
  result : ℕ → ℕ → String → ℕ → ℕ → TaskStatus → String → SubStatement

-- The selection and the update of a claim as one statement: the row is locked in between.
unfoldable pub select_and_claim : ℕ → ℕ → String → Bool → ℕ → Update SubTask
unfolding claim_update claimed_before
select_and_claim now id worker may timeout = record {
  hits = λ t.
      may
      && (is_in (TaskStatus.pending ∷ TaskStatus.retrying ∷ []) t.status
          || task_eq t.status TaskStatus.running && claimed_before t.claimed_at timeout)
      && (claim_update now id worker).hits t;
  sets = (claim_update now id worker).sets;
}

unfoldable pub sub_meaning : SubStatement → Update SubTask
unfolding select_and_claim cancel_unfinished_update release_update renew_claim_update reset_update
    result_update
sub_meaning (claim now id worker may timeout) = select_and_claim now id worker may timeout
sub_meaning (cancel_unfinished now main_id) = cancel_unfinished_update now main_id
sub_meaning (release id) = release_update id
sub_meaning (renew now id worker) = renew_claim_update now id worker
sub_meaning (reset main_id) = reset_update main_id
sub_meaning (result now id worker success fail status last_error) =
    result_update now id worker success fail status last_error

unfoldable pub sub_step : SubStatement → SubTask → SubTask
unfolding sub_meaning
sub_step s t = on_row (sub_meaning s) t

unfoldable pub sub_run : List SubStatement → SubTask → SubTask
sub_run [] t = t
sub_run (s ∷ ss) t = sub_run ss (sub_step s t)

-- The statements that leave a claim made at `a` in force: claims with an earlier lapse, renewals,
-- cancellation and results that end the sub task, but no release and no reset.
abbrev pub RespectsClaim : ℕ → SubStatement → Type 0
RespectsClaim a (claim now id worker may timeout) = timeout ≤ a
RespectsClaim a (release id) = ⊥
RespectsClaim a (reset main_id) = ⊥
RespectsClaim a (renew now id worker) = a ≤ now
RespectsClaim a (result now id worker success fail status last_error) = is_terminal status ≡ true
RespectsClaim a (cancel_unfinished now main_id) = Unit

-- The sub task is `w`'s by a claim no older than `a`, or ended under `w`.
pub record IsHeld (w : String) (a : ℕ) (t : SubTask) : Type 0 where
  pub holder : t.worker_id ≡ w
  pub fresh : claimed_before t.claimed_at a ≡ false
  pub busy : is_in (TaskStatus.pending ∷ TaskStatus.retrying ∷ []) t.status ≡ false

claimed_before-le :
    (o : Option ℕ) (a timeout : ℕ)
    → timeout ≤ a
    → claimed_before o a ≡ false
    → claimed_before o timeout ≡ false
unfolding claimed_before
claimed_before-le none a timeout h k = refl
claimed_before-le (some at) a timeout h k = ground arith

sub_step-IsHeld :
    (s : SubStatement) (t : SubTask) (w : String) (a : ℕ)
    → RespectsClaim a s
    → IsHeld w a t
    → IsHeld w a (sub_step s t)
unfolding sub_step sub_meaning is_terminal
sub_step-IsHeld (claim now id worker may timeout) t w a h v =
    ground (arith, claimed_before-le t.claimed_at a timeout)
sub_step-IsHeld (cancel_unfinished now main_id) t w a h v = ground arith
sub_step-IsHeld (release id) t w a h v = elim h [ ]
sub_step-IsHeld (renew now id worker) t w a h v = ground arith
sub_step-IsHeld (reset main_id) t w a h v = elim h [ ]
sub_step-IsHeld (result now id worker success fail status last_error) t w a h v = ground arith

-- A worker's claim made at `a` or later is safe: through every history in which no claim takes
-- claims from `a` on for lapsed, renewals are not made before `a`, every recorded result is
-- terminal, and nothing releases or resets, the sub task stays that worker's.
pub sub_run-IsHeld :
    (ss : List SubStatement) (t : SubTask) (w : String) (a : ℕ)
    → All (RespectsClaim a) ss
    → IsHeld w a t
    → IsHeld w a (sub_run ss t)
unfolding sub_run
sub_run-IsHeld [] t w a h v = v
sub_run-IsHeld (s ∷ ss) t w a h v =
    sub_run-IsHeld ss (sub_step s t) w a h.1 (sub_step-IsHeld s t w a h.0 v)

abbrev pub NotClaimBy : String → SubStatement → Type 0
NotClaimBy w (claim now id worker may timeout) = worker ≢ w
NotClaimBy w _ = Unit

sub_step-worker :
    (s : SubStatement) (t : SubTask) (w : String)
    → w ≢ ""
    → NotClaimBy w s
    → t.worker_id ≢ w
    → (sub_step s t).worker_id ≢ w
unfolding sub_step sub_meaning
sub_step-worker (claim now id worker may timeout) t w n c h = ground arith
sub_step-worker _ t w n c h = ground arith

sub_run-worker :
    (ss : List SubStatement) (t : SubTask) (w : String)
    → w ≢ ""
    → All (NotClaimBy w) ss
    → t.worker_id ≢ w
    → (sub_run ss t).worker_id ≢ w
unfolding sub_run
sub_run-worker [] t w n c h = h
sub_run-worker (s ∷ ss) t w n c h =
    sub_run-worker ss (sub_step s t) w n c.1 (sub_step-worker s t w n c.0 h)

-- A worker, named by a text that is not empty, that does not hold a sub task can neither record a
-- result for it nor renew a claim of it, through every history in which it does not claim it.
pub taken_over_fenced :
    (ss : List SubStatement) (t : SubTask) (w : String) (now id success fail : ℕ)
    (status : TaskStatus) (last_error : String)
    → w ≢ ""
    → All (NotClaimBy w) ss
    → t.worker_id ≢ w
    → ((sub_meaning (result now id w success fail status last_error)).hits (sub_run ss t) ≡ false)
      × ((sub_meaning (renew now id w)).hits (sub_run ss t) ≡ false)
unfolding sub_meaning
taken_over_fenced ss t w now id success fail status last_error n c h =
    ground (arith, sub_run-worker ss t w n c h, str_eq_iff (sub_run ss t).worker_id w)

sub_step-success :
    (s : SubStatement) (t : SubTask) → t.status ≡ TaskStatus.success → sub_step s t ≡ t
unfolding sub_step sub_meaning
sub_step-success (claim now id worker may timeout) t h = ground arith
sub_step-success _ t h = ground arith

-- A sub task that succeeded is never touched again: no claim, no second result, no reset.
pub sub_run-success :
    (ss : List SubStatement) (t : SubTask) → t.status ≡ TaskStatus.success → sub_run ss t ≡ t
unfolding sub_run
sub_run-success [] t h = refl
sub_run-success (s ∷ ss) t h = rw (sub_step-success s t h) (sub_run-success ss t h)
