-- ===== src/Scheduler/Worker/Fenced.antt =====
-- internal/scheduler/worker.go: a worker that lost its claim to another, and ReleaseSubTask.
use startlink.Base.{
  any-weaken, ℕ, zero, suc, ◌+◌, ◌-◌, ◌%◌, ◌≤◌, String, Bool, true, false, ◌&&◌, ◌||◌, List, [],
  ◌∷◌, ◌++◌, Option, none, some, ◌==◌, length, str_eq, take, any, pos, ltb_ℤ, if◌then◌else◌, Reply,
  ok, err, ◌≡◌, refl, ◌∙◌, arith, inl, inr, Bool-cases,
}
use startlink.Domain.Status.{TaskStatus}
use startlink.Tasks.Rows.{MainTask, SubTask, UserIds, document, malformed, task_eq}
use startlink.Tasks.Sub.{
  update_sub_task_result, result_update, renew_sub_task_claim, renew_claim_update,
}
use startlink.Gateway.Services.{PushMessage}
use startlink.Aggregator.Steps
use startlink.Scheduler.Campaign.{Campaign}
use startlink.Scheduler.World.{Services, World, calls_of, tick, now_at, load_row, on_subs}
use startlink.Scheduler.Split.{is_expired}
use startlink.Scheduler.Worker.Published.{before_message-Quiet}
use startlink.Scheduler.Worker.{
  WorkError, Work, fine, broke, db_failed, claim_lost, main_cancelled, main_paused, bad_user_ids,
  publish_failed, aborted, after_publish, publish, after_renewal, renew_claim, before_message,
  then_do, publish_paced, pace_of, publish_msgs, write_result, after_result,
  finish_expired_sub_task, leave_cancelled, leave_paused, unless_closed, send_all, with_document,
  process_sub_task, after_process, renew_claim_every,
}

-- Another worker has the sub task now, at every statement from here on.
abbrev pub IsLost : Services → SubTask → Type 0
IsLost s st =
    (i : ℕ) (rows : List SubTask)
    → any (λ t. t.id == st.id && str_eq t.worker_id st.worker_id) (s.other_subs i rows) ≡ false

-- The aggregator did nothing.
abbrev Idle : World → World → Type 0
Idle w v = (v.base.writes ≡ w.base.writes) × (v.base.notices ≡ w.base.notices)

module _ (s : Services) (st : SubTask) (lost : IsLost s st) where
  result-missed :
      (success fail now : ℕ) (status : TaskStatus) (text : String) (i : ℕ) (rows : List SubTask)
      → any
          (result_update now st.id st.worker_id success fail status text).hits
          (s.other_subs i rows)
        ≡ false
  unfolding result_update
  result-missed success fail now status text i rows =
      any-weaken _ _ (s.other_subs i rows) (λ t h. ground (arith, h)) (lost i rows)

  renewal-missed :
      (now i : ℕ) (rows : List SubTask)
      → any (renew_claim_update now st.id st.worker_id).hits (s.other_subs i rows) ≡ false
  unfolding renew_claim_update
  renewal-missed now i rows =
      any-weaken _ _ (s.other_subs i rows) (λ t h. ground (arith, h)) (lost i rows)

  write_result-Idle :
      (success fail : ℕ) (status : TaskStatus) (text : String) (w : World)
      → Idle w (after_result s st (write_result s st success fail status text w)).1
  unfolding write_result on_subs update_sub_task_result
  write_result-Idle success fail status text w = elim (Bool-cases (s.base.db_fails (calls_of w))) [
    | inl e ↦ rw e (unfold after_result in (refl, refl))
    | inr e ↦
        rw (e, result-missed success fail (now_at s w) status text (calls_of w) w.subs)
          (unfold after_result in (refl, refl))
  ]

  unless_closed-Idle :
      (c : Campaign) (next : World → Work × World) (o : Option MainTask) (w u : World)
      → Idle u w
      → ((v : World) → Idle u v → Idle u (next v).1)
      → Idle u (unless_closed s c st next (o, w)).1
  unfolding unless_closed
  unless_closed-Idle c next none w u h k = h
  unless_closed-Idle c next (some main) w u h k =
      elim (Bool-cases (task_eq main.status TaskStatus.cancelled)) [
        | inl e ↦ rw e (unfold leave_cancelled write_result on_subs in h)
        | inr e ↦ elim (Bool-cases (task_eq main.status TaskStatus.paused)) [
          | inl f ↦ rw (e, f) (unfold leave_paused on_subs in h)
          | inr f ↦ elim (Bool-cases (is_expired c.expire_at (now_at s w))) [
            | inl g ↦
                let quiet : Idle w
                    (after_result s st (
                      write_result s st 0 st.total_count TaskStatus.failed "campaign expired"
                        w)).1 =
                  write_result-Idle 0 st.total_count TaskStatus.failed "campaign expired" w in
                rw (e, f, g) (unfold finish_expired_sub_task in (quiet.0 ∙ h.0, quiet.1 ∙ h.1))
            | inr g ↦ rw (e, f, g) (k w h)
          ]
        ]
      ]

  after_publish-Idle :
      (msgs : List PushMessage) (o : Option ℕ) (w u : World)
      → Idle u w
      → Idle u (after_publish msgs o w).1
  unfolding after_publish
  after_publish-Idle msgs none w u h = h
  after_publish-Idle msgs (some n) w u h = h

  then_do-Idle :
      (r : Work × World) (f : World → Work × World) (u : World)
      → Idle u r.1
      → ((v : World) → Idle u v → Idle u (f v).1)
      → Idle u (then_do r f).1
  then_do-Idle (broke e, w) f u h k = h
  then_do-Idle (fine, w) f u h k = k w h

  after_renewal-Idle : (r : Reply Bool) (w u : World) → Idle u w → Idle u (after_renewal (r, w)).1
  unfolding after_renewal
  after_renewal-Idle err w u h = h
  after_renewal-Idle (ok false) w u h = h
  after_renewal-Idle (ok true) w u h = h

  before_message-Idle : (i : ℕ) (w u : World) → Idle u w → Idle u (before_message s st i w).1
  unfolding before_message
  before_message-Idle i w u h = elim (Bool-cases (i == 0)) [
    | inl e ↦ rw e h
    | inr e ↦ elim (Bool-cases (s.cancelled_at (calls_of w))) [
      | inl f ↦ rw (e, f) h
      | inr f ↦ elim (Bool-cases (i % renew_claim_every == 0)) [
        | inr g ↦ rw (e, f, g) h
        | inl g ↦ elim (Bool-cases (st.id == 0 || str_eq st.worker_id "")) [
          | inl k ↦ rw (e, f, g) (unfold renew_claim in rw k h)
          | inr k ↦ rw (e, f, g) (unfold renew_claim on_subs in rw k (after_renewal-Idle _ _ u h))
        ]
      ]
    ]
  ]

  publish_paced-Idle :
      (i : ℕ) (msgs : List PushMessage) (w u : World)
      → Idle u w
      → Idle u (publish_paced s st i msgs w).1
  unfolding publish_paced publish
  publish_paced-Idle i [] w u h = h
  publish_paced-Idle i (m ∷ ms) w u h =
      then_do-Idle (before_message s st i w) _ u (before_message-Idle i w u h) λ v k.
        then_do-Idle (publish s (m ∷ []) v) (publish_paced s st (suc i) ms) u
          (after_publish-Idle (m ∷ []) (s.publish_at (calls_of v)) (tick v) u k)
          (λ x y. publish_paced-Idle (suc i) ms x u y)

  publish_msgs-Idle :
      (c : Campaign) (msgs : List PushMessage) (w u : World)
      → Idle u w
      → Idle u (publish_msgs s c st msgs w).1
  unfolding publish_msgs publish
  publish_msgs-Idle c [] w u h = h
  publish_msgs-Idle c (m ∷ ms) w u h = elim (Bool-cases (ltb_ℤ (pos 0) (pace_of s c w))) [
    | inl e ↦ rw e (publish_paced-Idle 0 (m ∷ ms) (tick w) u h)
    | inr e ↦
        rw e (after_publish-Idle (m ∷ ms) (s.publish_at (calls_of (tick w))) (tick (tick w)) u h)
  ]

  written-Idle :
      (success fail : ℕ) (status : TaskStatus) (text : String) (w u : World)
      → Idle u w
      → Idle u (after_result s st (write_result s st success fail status text w)).1
  written-Idle success fail status text w u h =
      let quiet : Idle w (after_result s st (write_result s st success fail status text w)).1 =
        write_result-Idle success fail status text w in
      (quiet.0 ∙ h.0, quiet.1 ∙ h.1)

  with_document-Idle :
      (c : Campaign) (d : UserIds) (w u : World) → Idle u w → Idle u (with_document s c st d w).1
  unfolding with_document send_all load_row
  with_document-Idle c malformed w u h = h
  with_document-Idle c (document p) w u h =
      unless_closed-Idle c _ _ _ u (unfold Steps.load_main in h) λ v k.
        then_do-Idle (publish_msgs s c st _ v) _ u (publish_msgs-Idle c _ v u k)
          (λ x y. written-Idle _ 0 TaskStatus.success "" x u y)

  after_process-Idle : (r : Work) (w u : World) → Idle u w → Idle u (after_process s st (r, w))
  unfolding after_process
  after_process-Idle fine w u h = h
  after_process-Idle (broke main_cancelled) w u h = h
  after_process-Idle (broke main_paused) w u h = h
  after_process-Idle (broke claim_lost) w u h = h
  after_process-Idle (broke db_failed) w u h =
      written-Idle 0 st.total_count TaskStatus.failed "process failed" w u h
  after_process-Idle (broke bad_user_ids) w u h =
      written-Idle 0 st.total_count TaskStatus.failed "process failed" w u h
  after_process-Idle (broke publish_failed) w u h =
      written-Idle 0 st.total_count TaskStatus.failed "process failed" w u h
  after_process-Idle (broke aborted) w u h =
      written-Idle 0 st.total_count TaskStatus.failed "process failed" w u h

load_row-Idle : (s : Services) (id : ℕ) (w : World) → Idle w (load_row s id w).1
unfolding load_row Steps.load_main
load_row-Idle s id w = (refl, refl)

-- A worker whose sub task another worker has taken over makes the aggregator do nothing for it:
-- no campaign is counted or finished and no notice is sent, whatever the errors on its way.
pub process_sub_task-Idle :
    (s : Services) (st : SubTask) (w : World)
    → IsLost s st
    → ((after_process s st (process_sub_task s st w)).base.writes ≡ w.base.writes)
      × ((after_process s st (process_sub_task s st w)).base.notices ≡ w.base.notices)
unfolding process_sub_task
process_sub_task-Idle s st w lost =
    let c = s.content st.main_task_id in
    let loaded = load_row s st.main_task_id w in
    after_process-Idle s st lost (process_sub_task s st w).0 (process_sub_task s st w).1 w (
      unless_closed-Idle s st lost c (with_document s c st st.user_ids) loaded.0 loaded.1 w
        (load_row-Idle s st.main_task_id w)
        (λ v h. with_document-Idle s st lost c st.user_ids v w h))

-- How many messages go out before the next renewal.
abbrev room : ℕ → ℕ
room i = if i == 0 then 50 else (50 - i % 50) % 50

length-append : (xs ys : List PushMessage) → length (xs ++ ys) ≡ length xs + length ys
length-append [] ys = omega arith
length-append (x ∷ xs) ys = omega (arith, length-append xs ys)

length-take_one : (n : ℕ) (m : PushMessage) → length (take n (m ∷ [])) ≤ 1
length-take_one zero m = omega arith
length-take_one (suc zero) m = omega arith
length-take_one (suc (suc n)) m = omega arith

after_publish-length :
    (m : PushMessage) (o : Option ℕ) (w : World)
    → length (after_publish (m ∷ []) o w).1.published ≤ suc (length w.published)
unfolding after_publish
after_publish-length m none w = omega (arith, length-append w.published (m ∷ []))
after_publish-length m (some n) w =
    omega (arith, length-append w.published (take n (m ∷ [])), length-take_one n m)

le_trans3 : {a b c : ℕ} → a ≤ suc b → b ≤ c → a ≤ suc c
le_trans3 h k = omega arith

then_do-length :
    (a bound : ℕ) (r : Work × World) (f : World → Work × World)
    → length r.1.published ≤ a
    → a ≤ bound
    → ((v : World) → length v.published ≤ a → length (f v).1.published ≤ bound)
    → length (then_do r f).1.published ≤ bound
then_do-length a bound (broke e, w) f h k next = omega arith
then_do-length a bound (fine, w) f h k next = next w h

then_do-broke :
    (r : Work × World) (f : World → Work × World) (e : WorkError)
    → r.0 ≡ broke e
    → (then_do r f).1 ≡ r.1
then_do-broke (broke e', w) f e h = refl
then_do-broke (fine, w) f e h = cc

module _ (s : Services) (st : SubTask) (lost : IsLost s st)
    (claimed : (st.id == 0 || str_eq st.worker_id "") ≡ false) where
  renew_claim-broke : (w : World) → (e : WorkError) × ((renew_claim s st w).0 ≡ broke e)
  unfolding renew_claim on_subs renew_sub_task_claim
  renew_claim-broke w = elim (Bool-cases (s.base.db_fails (calls_of w))) [
    | inl e ↦ (db_failed, rw (claimed, e) (unfold after_renewal in refl))
    | inr e ↦ (
      claim_lost,
      rw (claimed, e, renewal-missed s st lost (now_at s w) (calls_of w) w.subs)
          (unfold after_renewal in refl),
    )
  ]

  before_message-broke :
      (i : ℕ) (w : World)
      → (i == 0) ≡ false
      → (i % 50 == 0) ≡ true
      → (e : WorkError) × ((before_message s st i w).0 ≡ broke e)
  unfolding before_message
  before_message-broke i w h k = elim (Bool-cases (s.cancelled_at (calls_of w))) [
    | inl e ↦ (aborted, rw (h, e) refl)
    | inr e ↦ ((renew_claim-broke w).0, rw (h, e, k) (renew_claim-broke w).1)
  ]

  -- A message that is not at a renewal.
  paced_step-length :
      (i : ℕ) (m : PushMessage) (w : World) (rest : World → Work × World)
      → suc (room (suc i)) ≤ room i
      → ((v : World) → length (rest v).1.published ≤ length v.published + room (suc i))
      → length
          (then_do (before_message s st i w) λ v. then_do (publish s (m ∷ []) v) rest).1.published
        ≤ length w.published + room i
  unfolding publish
  paced_step-length i m w rest fits next =
      then_do-length (length w.published) (length w.published + room i) (before_message s st i w) _
        (rw (before_message-Quiet s st i w) (omega arith)) (omega arith)
        λ v h.
          then_do-length (suc (length w.published)) (length w.published + room i)
            (publish s (m ∷ []) v) rest
            (le_trans3 (after_publish-length m (s.publish_at (calls_of v)) (tick v)) h)
            (omega arith) (λ u k. omega (arith, next u, k))

  publish_paced-length :
      (i : ℕ) (msgs : List PushMessage) (w : World)
      → length (publish_paced s st i msgs w).1.published ≤ length w.published + room i
  unfolding publish_paced
  publish_paced-length i [] w = omega arith
  publish_paced-length i (m ∷ ms) w = elim (Bool-cases (i == 0)) [
    | inl start ↦
        paced_step-length i m w (publish_paced s st (suc i) ms) (ground arith)
          (publish_paced-length (suc i) ms)
    | inr later ↦ elim (Bool-cases (i % 50 == 0)) [
      | inr between ↦
          paced_step-length i m w (publish_paced s st (suc i) ms) (ground arith)
            (publish_paced-length (suc i) ms)
      | inl renewal ↦
          let stop = before_message-broke i w later renewal in
          rw
            (then_do-broke (before_message s st i w) _ stop.0 stop.1, before_message-Quiet s st i w)
            (omega arith)
    ]
  ]

-- A worker that publishes at a pace, and whose sub task another worker has taken over, publishes
-- at most 50 more messages of it.
pub publish_paced-IsBounded :
    (s : Services) (st : SubTask) (msgs : List PushMessage) (w : World)
    → IsLost s st
    → (st.id == 0 || str_eq st.worker_id "") ≡ false
    → length (publish_paced s st 0 msgs w).1.published ≤ length w.published + 50
publish_paced-IsBounded s st msgs w lost claimed = publish_paced-length s st lost claimed 0 msgs w
