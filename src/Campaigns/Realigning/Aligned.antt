-- ===== src/Campaigns/Realigning/Aligned.antt =====
-- internal/app/campaign/service.go: the row that realignCounters leaves, where no call of the database
-- fails and no other process writes.
use startlink.Base.{
  ℕ, suc, ◌+◌, Bool, true, false, ◌&&◌, not, List, [], ◌∷◌, some, ◌==◌, count_where,
  first_where-update, either, if◌then◌else◌, ◌≡◌, refl, ap, ◌∙◌, arith, first_where-test,
}
use startlink.Domain.Status.{is_terminal}
use startlink.Tasks.Rows.{MainTask, SubTask}
use startlink.Tasks.Main.{get_main_task}
use startlink.Tasks.Main.Counters.{sync_main_counters, counters_update, new_total}
use startlink.Records.Outcomes.{count_user_outcomes}
use startlink.Campaigns.{
  Services, World, Outcome, done, and_then, on_mains, read_subs, read_records, set_sub_done, quiet,
  and_then-keeps, Outcome,
}
use startlink.Campaigns.Realigning.{
  Totals, no_totals, summarize_sub_tasks, add_summaries, counts_or, user_counts, write_counters,
  realign_counters,
}
use startlink.Campaigns.Realigning.Exact.{totals-done, totals-total}

-- A row of the campaign with its counters as the sub tasks stand: as many are done as are in a
-- terminal status, and there are these and the others.
pub record IsAligned (main_id : ℕ) (subs : List SubTask) (m : MainTask) : Type 0 where
  pub sub_done :
      m.sub_task_done ≡ count_where (λ t. t.main_task_id == main_id && is_terminal t.status) subs
  pub sub_total :
      m.sub_task_total
      ≡ m.sub_task_done
        + count_where (λ t. t.main_task_id == main_id && not (is_terminal t.status)) subs

count_where-split :
    (p q : SubTask → Bool) (subs : List SubTask)
    → count_where p subs
      ≡ count_where (λ t. p t && q t) subs + count_where (λ t. p t && not (q t)) subs
count_where-split p q [] = omega arith
count_where-split p q (t ∷ subs) = ground (arith, count_where-split p q subs)

-- The row of the campaign afterwards: aligned, and in the status that it had.
abbrev pub Aligns : ℕ → List SubTask → MainTask → List MainTask → Type 0
Aligns id subs m rows =
    (m' : MainTask) × (get_main_task id rows ≡ some m')
    × IsAligned id subs m'
    × (m'.status ≡ m.status)

abbrev mains_of {ℓ} : {A : Type ℓ} → Outcome A × World → List MainTask
mains_of r = r.1.mains

module _ (s : Services) (id : ℕ) (m : MainTask) where
  counters-row :
      (now success fail sub_done sub_total : ℕ) (rows : List MainTask)
      → get_main_task id rows ≡ some m
      → get_main_task id
          (sync_main_counters false now id success fail sub_done (some sub_total) rows).1
        ≡ some ((counters_update now id success fail sub_done (some sub_total)).sets m)
  unfolding get_main_task sync_main_counters
  counters-row now success fail sub_done sub_total rows h =
      let u = counters_update now id success fail sub_done (some sub_total) in
      first_where-update (λ r. r.id == id) u rows (λ r. unfold counters_update in refl)
      ∙ rw h (unfold counters_update in ground (arith, first_where-test (λ r. r.id == id) rows m h))

  write_counters-Aligns :
      (subs : List SubTask) (users : ℕ × ℕ) (w : World)
      → get_main_task id w.mains ≡ some m
      → Aligns id subs m
          (write_counters
            (quiet s)
            id
            (add_summaries (summarize_sub_tasks id subs) no_totals)
            users
            w).1.mains
  unfolding write_counters on_mains set_sub_done
  write_counters-Aligns subs users w h =
      let t = add_summaries (summarize_sub_tasks id subs) no_totals in
      let u = counters_update (s.clock w.calls) id users.0 users.1 t.sub_done (some t.total) in
      (
        u.sets m,
        ap (get_main_task id) (
              and_then-keeps (λ v. v.mains)
                (on_mains (quiet s)
                  (λ fails now.
                    sync_main_counters fails now id users.0 users.1 t.sub_done (some t.total))
                  w)
                _
                (λ b v.
                  either mains_of s.has_cache _ (done tt, v) v.mains
                    (either mains_of (s.cache_fails v.calls) _ _ v.mains refl refl) refl))
            ∙ counters-row (s.clock w.calls) users.0 users.1 t.sub_done t.total w.mains h,
        unfold counters_update new_total in
            record {
              sub_done = totals-done id subs;
              sub_total = omega (
                arith,
                totals-total id subs,
                totals-done id subs,
                count_where-split (λ x. x.main_task_id == id) (λ x. is_terminal x.status) subs,
              );
            },
        (unfold counters_update in refl),
      )

  with_counts-Aligns :
      (subs : List SubTask) (w : World)
      → get_main_task id w.mains ≡ some m
      → Aligns id subs m
          (and_then
            (user_counts (quiet s) id (add_summaries (summarize_sub_tasks id subs) no_totals) w)
            (write_counters
              (quiet s)
              id
              (add_summaries (summarize_sub_tasks id subs) no_totals))).1.mains
  unfolding user_counts read_records
  with_counts-Aligns subs w h = go s.has_push_repo
    where
      t : Totals
      t = add_summaries (summarize_sub_tasks id subs) no_totals

      go :
          (b : Bool)
          → Aligns id subs m
              (and_then
                (if b
                  then and_then
                      (read_records (quiet s) (count_user_outcomes id) w)
                      (λ oc w. (done (counts_or t oc), w))
                  else (done (t.pipe_success, t.pipe_fail), w))
                (write_counters (quiet s) id t)).1.mains
      go true = write_counters-Aligns subs _ (record w { calls = suc w.calls }) h
      go false = write_counters-Aligns subs _ w h

  -- Where no call of the database fails and no other process writes, realignCounters leaves the row of
  -- the campaign in its status, and aligned: sub_task_done is the number of its sub tasks in a terminal
  -- status, and sub_task_total that number and the number of the others.
  pub realign_counters-Aligns :
      (w : World)
      → get_main_task id w.mains ≡ some m
      → Aligns id w.subs m (realign_counters (quiet s) id w).1.mains
  unfolding realign_counters read_subs
  realign_counters-Aligns w h = with_counts-Aligns w.subs (record w { calls = suc w.calls }) h
