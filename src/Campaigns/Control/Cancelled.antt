-- ===== src/Campaigns/Control/Cancelled.antt =====
-- internal/app/campaign/service.go: what Cancel leaves of the sub tasks.
use startlink.Base.{
  ℕ, Bool, true, false, ◌&&◌, List, [], ◌∷◌, some, ◌==◌, any, update_where, ◌≡◌, refl, sym, arith,
  ◌∙◌, ap, inl, inr, Bool-cases, Option-cases, first_where-test, first_where,
}
use startlink.Domain.Status.{TaskStatus, is_terminal}
use startlink.Tasks.Rows.{MainTask, SubTask, is_in}
use startlink.Tasks.Main.{get_main_task, cancel_main_task}
use startlink.Tasks.Sub.{cancel_unfinished_sub_tasks, cancel_unfinished_update}
use startlink.Campaigns.{
  not_found, db_error, Services, World, Outcome, done, refused, on_mains, on_subs, get,
  and_then-done,
}
use startlink.Campaigns.Control.{
  CancelResult, fire_webhook, emit_inbox, tell_cancelled, after_cancel, cancel_unless, cancel,
  as_it_is,
}

-- A sub task of the campaign that is waiting, or running.
unfoldable pub is_unfinished : ℕ → SubTask → Bool
is_unfinished main_id t =
    t.main_task_id == main_id
    && is_in (TaskStatus.pending ∷ TaskStatus.running ∷ TaskStatus.retrying ∷ []) t.status

none-unfinished :
    (now id : ℕ) (subs : List SubTask)
    → any (is_unfinished id) (
        update_where
          (cancel_unfinished_update now id).hits
          (cancel_unfinished_update now id).sets
          subs)
      ≡ false
unfolding is_unfinished cancel_unfinished_update
none-unfinished now id [] = refl
none-unfinished now id (t ∷ subs) = ground (arith, none-unfinished now id subs)

done-inj : (x y : CancelResult) → Outcome.done x ≡ done y → x ≡ y
done-inj x y e = cc

contradicts :
    (m : MainTask) (r : CancelResult)
    → as_it_is m (is_terminal m.status) ≡ r
    → r.status ≡ TaskStatus.cancelled
    → r.already_terminal ≡ false
    → true ≡ false
unfolding is_terminal
contradicts m r e c n =
    let cancelled : m.status ≡ TaskStatus.cancelled = ap (λ x. x.status) e ∙ c in
    let over : is_terminal m.status ≡ false = ap (λ x. x.already_terminal) e ∙ n in
    sym (ap is_terminal cancelled) ∙ over

module _ (s : Services) (id : ℕ) (task : MainTask) where
  tell_cancelled-subs : (o : Outcome MainTask) (w : World) → (tell_cancelled s (o, w)).subs ≡ w.subs
  unfolding tell_cancelled emit_inbox fire_webhook
  tell_cancelled-subs (refused e) w = refl
  tell_cancelled-subs (done m) w = ground arith

  subs-cancelled :
      (w : World) (n : ℕ)
      → (on_subs s
          (λ fails now. cancel_unfinished_sub_tasks fails now task.id)
          (λ now. cancel_unfinished_update now task.id)
          w).0
        ≡ done n
      → any
          (is_unfinished task.id)
          (tell_cancelled s (
            get s id
              (on_subs s
                (λ fails now. cancel_unfinished_sub_tasks fails now task.id)
                (λ now. cancel_unfinished_update now task.id)
                w).1)).subs
        ≡ false
  unfolding on_subs get cancel_unfinished_sub_tasks
  subs-cancelled w n h = elim (Bool-cases (s.db_fails w.calls)) [
    | inl broken ↦ let contra : Outcome.refused db_error ≡ done n = rw broken at h in cc
    | inr works ↦
        ap (any (is_unfinished task.id)) (tell_cancelled-subs _ _)
        ∙ rw works (none-unfinished (s.clock w.calls) task.id (s.other_subs w.calls w.subs))
  ]

  after_cancel-subs :
      (taken : Bool) (w : World) (r : CancelResult)
      → (after_cancel s id task taken w).0 ≡ done r
      → r.status ≡ TaskStatus.cancelled
      → r.already_terminal ≡ false
      → any (is_unfinished task.id) (after_cancel s id task taken w).1.subs ≡ false
  unfolding after_cancel
  after_cancel-subs false w r h c n =
      and_then-done (λ v. any (is_unfinished task.id) v.subs ≡ false) (get s id w)
        (λ fresh v. (done (as_it_is fresh (is_terminal fresh.status)), v)) r
        (λ m given k. let broken = contradicts m r (done-inj _ r k) c n in cc) h
  after_cancel-subs true w r h c n =
      and_then-done (λ v. any (is_unfinished task.id) v.subs ≡ false)
        (on_subs s (λ fails now. cancel_unfinished_sub_tasks fails now task.id)
          (λ now. cancel_unfinished_update now task.id) w)
        (λ n w. (
          done (record {
            task_id = task.id;
            status = TaskStatus.cancelled;
            already_terminal = false;
            cancelled_subs = n;
          }),
          tell_cancelled s (get s id w),
        ))
        r (λ m given k. subs-cancelled w m given) h

  cancel_unless-subs :
      (over : Bool) (w : World) (r : CancelResult)
      → (cancel_unless s id task over w).0 ≡ done r
      → r.status ≡ TaskStatus.cancelled
      → r.already_terminal ≡ false
      → any (is_unfinished task.id) (cancel_unless s id task over w).1.subs ≡ false
  unfolding cancel_unless
  cancel_unless-subs true w r h c n =
      let again : true ≡ r.already_terminal = ap (λ x. x.already_terminal) (done-inj _ r h) in cc
  cancel_unless-subs false w r h c n =
      and_then-done (λ v. any (is_unfinished task.id) v.subs ≡ false)
        (on_mains s (λ fails now. cancel_main_task fails now task.id) w) (after_cancel s id task) r
        (λ taken given k.
          after_cancel-subs taken (on_mains s (λ fails now. cancel_main_task fails now task.id) w).1
            r k c n)
        h

get-id : (s : Services) (id : ℕ) (w : World) (m : MainTask) → (get s id w).0 ≡ done m → m.id ≡ id
unfolding get get_main_task
get-id s id w m h = elim (Bool-cases (s.db_fails w.calls)) [
  | inl broken ↦ let contra : Outcome.refused db_error ≡ done m = rw broken at h in cc
  | inr works ↦
      elim (Option-cases (first_where (λ r. r.id == id) (s.other_mains w.calls w.mains))) [
        | inl missing ↦
            let contra : Outcome.refused not_found ≡ done m = rw (works, missing) at h in cc
        | inr (m', there) ↦
            let found : Outcome.done m' ≡ done m = rw (works, there) at h in
            let same : m' ≡ m = cc in
            ground (
              arith,
              first_where-test (λ r. r.id == id) (s.other_mains w.calls w.mains) m
                  (there ∙ ap some same),
            )
      ]
]

-- Cancel under any failures and any writes of others: if it answers that the campaign is cancelled, and
-- that it was not over before, then no sub task of the campaign waits or runs.
pub cancel-subs :
    (s : Services) (id : ℕ) (w : World) (r : CancelResult)
    → (cancel s id w).0 ≡ done r
    → r.status ≡ TaskStatus.cancelled
    → r.already_terminal ≡ false
    → any (is_unfinished id) (cancel s id w).1.subs ≡ false
unfolding cancel
cancel-subs s id w r h c n =
    and_then-done (λ v. any (is_unfinished id) v.subs ≡ false) (get s id w)
      (λ task. cancel_unless s id task (is_terminal task.status)) r
      (λ task given k.
        ap
          (λ n.
            any (is_unfinished n)
              (cancel_unless s id task (is_terminal task.status) (get s id w).1).1.subs)
          (sym (get-id s id w task given))
        ∙ cancel_unless-subs s id task (is_terminal task.status) (get s id w).1 r k c n)
      h
