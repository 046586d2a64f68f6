-- ===== src/Campaigns/Realigning/Exact.antt =====
-- internal/app/campaign/service.go: the counters that realignCounters adds up from the groups, beside
-- those counted on the rows.
use startlink.Base.{
  ℕ, suc, ◌+◌, Bool, true, false, ◌&&◌, List, [], ◌∷◌, ◌==◌, count_where, if◌then◌else◌, ◌≡◌, refl,
  arith, inl, inr, Bool-cases,
}
use startlink.Domain.Status.{TaskStatus, is_terminal}
use startlink.Tasks.Rows.{SubTask, task_eq}
use startlink.Campaigns.Realigning.{
  summarize_sub_tasks, no_totals, all_statuses, StatusSummary, is_sub_in, summary_of, groups,
  Totals, switch_on, add_summaries,
}

-- The sub tasks of the summaries that the loop counts as done, and of all.
done_in : List StatusSummary → ℕ
unfolding is_terminal
done_in [] = 0
done_in (sm ∷ rest) = let n = done_in rest in if is_terminal sm.status then sm.sub_count + n else n

all_in : List StatusSummary → ℕ
all_in [] = 0
all_in (sm ∷ rest) = sm.sub_count + all_in rest

switch_on-done :
    (status : TaskStatus) (sm : StatusSummary) (t : Totals)
    → (switch_on status sm t).sub_done
      ≡ (if is_terminal status then t.sub_done + sm.sub_count else t.sub_done)
unfolding switch_on is_terminal
switch_on-done TaskStatus.draft sm t = refl
switch_on-done TaskStatus.pending sm t = refl
switch_on-done TaskStatus.running sm t = refl
switch_on-done TaskStatus.paused sm t = refl
switch_on-done TaskStatus.success sm t = refl
switch_on-done TaskStatus.partial sm t = refl
switch_on-done TaskStatus.failed sm t = refl
switch_on-done TaskStatus.cancelled sm t = refl
switch_on-done TaskStatus.retrying sm t = refl

switch_on-total :
    (status : TaskStatus) (sm : StatusSummary) (t : Totals)
    → (switch_on status sm t).total ≡ t.total
unfolding switch_on
switch_on-total TaskStatus.draft sm t = refl
switch_on-total TaskStatus.pending sm t = refl
switch_on-total TaskStatus.running sm t = refl
switch_on-total TaskStatus.paused sm t = refl
switch_on-total TaskStatus.success sm t = refl
switch_on-total TaskStatus.partial sm t = refl
switch_on-total TaskStatus.failed sm t = refl
switch_on-total TaskStatus.cancelled sm t = refl
switch_on-total TaskStatus.retrying sm t = refl

add_summaries-done :
    (ss : List StatusSummary) (t : Totals) → (add_summaries ss t).sub_done ≡ t.sub_done + done_in ss
unfolding add_summaries done_in
add_summaries-done [] t = omega arith
add_summaries-done (sm ∷ ss) t =
    let u = record t { total = t.total + sm.sub_count } in
    elim (Bool-cases (is_terminal sm.status)) [
      | inl e ↦ grind (
        arith,
        e,
        add_summaries-done ss (switch_on sm.status sm u),
        switch_on-done sm.status sm u,
      )
      | inr e ↦ grind (
        arith,
        e,
        add_summaries-done ss (switch_on sm.status sm u),
        switch_on-done sm.status sm u,
      )
    ]

add_summaries-total :
    (ss : List StatusSummary) (t : Totals) → (add_summaries ss t).total ≡ t.total + all_in ss
unfolding add_summaries all_in
add_summaries-total [] t = omega arith
add_summaries-total (sm ∷ ss) t =
    let u = record t { total = t.total + sm.sub_count } in
    omega (arith, add_summaries-total ss (switch_on sm.status sm u), switch_on-total sm.status sm u)

-- The same on the rows, status by status.
module _ (main_id : ℕ) where
  count_of : TaskStatus → List SubTask → ℕ
  count_of status subs = count_where (is_sub_in main_id status) subs

  groups-all :
      (subs : List SubTask) (status : TaskStatus) (rest : List TaskStatus)
      → all_in (groups main_id subs (status ∷ rest))
        ≡ count_of status subs + all_in (groups main_id subs rest)
  unfolding groups all_in summary_of count_of
  groups-all subs status rest = ground arith

  groups-done :
      (subs : List SubTask) (status : TaskStatus) (rest : List TaskStatus)
      → done_in (groups main_id subs (status ∷ rest)) ≡ (
          if is_terminal status
          then count_of status subs + done_in (groups main_id subs rest)
          else done_in (groups main_id subs rest))
  unfolding groups done_in summary_of count_of is_terminal
  groups-done subs status rest = ground arith

  one_more : Bool → ℕ → ℕ
  one_more b n = if b then suc n else n

  -- A row is in one group, and counted as done where its status is terminal.
  row-all :
      (b : Bool) (status : TaskStatus) (c0 c1 c2 c3 c4 c5 c6 c7 c8 n : ℕ)
      → c0 + (c1 + (c2 + (c3 + (c4 + (c5 + (c6 + (c7 + (c8 + 0)))))))) ≡ n
      → one_more (b && task_eq status TaskStatus.draft) c0
          + (one_more (b && task_eq status TaskStatus.pending) c1
              + (one_more (b && task_eq status TaskStatus.running) c2
                  + (one_more (b && task_eq status TaskStatus.paused) c3
                      + (one_more (b && task_eq status TaskStatus.success) c4
                          + (one_more (b && task_eq status TaskStatus.partial) c5
                              + (one_more (b && task_eq status TaskStatus.failed) c6
                                  + (one_more (b && task_eq status TaskStatus.cancelled) c7
                                      + (one_more (b && task_eq status TaskStatus.retrying) c8
                                          + 0))))))))
        ≡ one_more (b) n
  unfolding one_more
  row-all false _ c0 c1 c2 c3 c4 c5 c6 c7 c8 n h = h
  row-all true TaskStatus.draft c0 c1 c2 c3 c4 c5 c6 c7 c8 n h = omega (arith, h)
  row-all true TaskStatus.pending c0 c1 c2 c3 c4 c5 c6 c7 c8 n h = omega (arith, h)
  row-all true TaskStatus.running c0 c1 c2 c3 c4 c5 c6 c7 c8 n h = omega (arith, h)
  row-all true TaskStatus.paused c0 c1 c2 c3 c4 c5 c6 c7 c8 n h = omega (arith, h)
  row-all true TaskStatus.success c0 c1 c2 c3 c4 c5 c6 c7 c8 n h = omega (arith, h)
  row-all true TaskStatus.partial c0 c1 c2 c3 c4 c5 c6 c7 c8 n h = omega (arith, h)
  row-all true TaskStatus.failed c0 c1 c2 c3 c4 c5 c6 c7 c8 n h = omega (arith, h)
  row-all true TaskStatus.cancelled c0 c1 c2 c3 c4 c5 c6 c7 c8 n h = omega (arith, h)
  row-all true TaskStatus.retrying c0 c1 c2 c3 c4 c5 c6 c7 c8 n h = omega (arith, h)

  row-done :
      (b : Bool) (status : TaskStatus) (c4 c5 c6 c7 n : ℕ)
      → c4 + (c5 + (c6 + (c7 + 0))) ≡ n
      → one_more (b && task_eq status TaskStatus.success) c4
          + (one_more (b && task_eq status TaskStatus.partial) c5
              + (one_more (b && task_eq status TaskStatus.failed) c6
                  + (one_more (b && task_eq status TaskStatus.cancelled) c7 + 0)))
        ≡ one_more (b && is_terminal status) n
  unfolding one_more is_terminal
  row-done false _ c4 c5 c6 c7 n h = h
  row-done true TaskStatus.draft c4 c5 c6 c7 n h = omega (arith, h)
  row-done true TaskStatus.pending c4 c5 c6 c7 n h = omega (arith, h)
  row-done true TaskStatus.running c4 c5 c6 c7 n h = omega (arith, h)
  row-done true TaskStatus.paused c4 c5 c6 c7 n h = omega (arith, h)
  row-done true TaskStatus.success c4 c5 c6 c7 n h = omega (arith, h)
  row-done true TaskStatus.partial c4 c5 c6 c7 n h = omega (arith, h)
  row-done true TaskStatus.failed c4 c5 c6 c7 n h = omega (arith, h)
  row-done true TaskStatus.cancelled c4 c5 c6 c7 n h = omega (arith, h)
  row-done true TaskStatus.retrying c4 c5 c6 c7 n h = omega (arith, h)

  rows-all :
      (subs : List SubTask)
      → count_of TaskStatus.draft subs
          + (count_of TaskStatus.pending subs
              + (count_of TaskStatus.running subs
                  + (count_of TaskStatus.paused subs
                      + (count_of TaskStatus.success subs
                          + (count_of TaskStatus.partial subs
                              + (count_of TaskStatus.failed subs
                                  + (count_of TaskStatus.cancelled subs
                                      + (count_of TaskStatus.retrying subs + 0))))))))
        ≡ count_where (λ t. t.main_task_id == main_id) subs
  unfolding count_of is_sub_in one_more
  rows-all [] = refl
  rows-all (t ∷ subs) =
      row-all (t.main_task_id == main_id) t.status (count_of TaskStatus.draft subs)
        (count_of TaskStatus.pending subs) (count_of TaskStatus.running subs)
        (count_of TaskStatus.paused subs) (count_of TaskStatus.success subs)
        (count_of TaskStatus.partial subs) (count_of TaskStatus.failed subs)
        (count_of TaskStatus.cancelled subs) (count_of TaskStatus.retrying subs) _ (rows-all subs)

  rows-done :
      (subs : List SubTask)
      → count_of TaskStatus.success subs
          + (count_of TaskStatus.partial subs
              + (count_of TaskStatus.failed subs + (count_of TaskStatus.cancelled subs + 0)))
        ≡ count_where (λ t. t.main_task_id == main_id && is_terminal t.status) subs
  unfolding count_of is_sub_in one_more
  rows-done [] = refl
  rows-done (t ∷ subs) =
      row-done (t.main_task_id == main_id) t.status (count_of TaskStatus.success subs)
        (count_of TaskStatus.partial subs) (count_of TaskStatus.failed subs)
        (count_of TaskStatus.cancelled subs) _ (rows-done subs)

module _ (main_id : ℕ) (subs : List SubTask) where
  pub totals-done :
      (add_summaries (summarize_sub_tasks main_id subs) no_totals).sub_done
      ≡ count_where (λ t. t.main_task_id == main_id && is_terminal t.status) subs
  unfolding summarize_sub_tasks is_terminal done_in groups
  totals-done =
      let r9 : List TaskStatus = [] in
      let r8 = TaskStatus.retrying ∷ r9 in
      let r7 = TaskStatus.cancelled ∷ r8 in
      let r6 = TaskStatus.failed ∷ r7 in
      let r5 = TaskStatus.partial ∷ r6 in
      let r4 = TaskStatus.success ∷ r5 in
      let r3 = TaskStatus.paused ∷ r4 in
      let r2 = TaskStatus.running ∷ r3 in
      let r1 = TaskStatus.pending ∷ r2 in
      omega (
        arith,
        add_summaries-done (groups main_id subs all_statuses) no_totals,
        groups-done main_id subs TaskStatus.draft r1,
        groups-done main_id subs TaskStatus.pending r2,
        groups-done main_id subs TaskStatus.running r3,
        groups-done main_id subs TaskStatus.paused r4,
        groups-done main_id subs TaskStatus.success r5,
        groups-done main_id subs TaskStatus.partial r6,
        groups-done main_id subs TaskStatus.failed r7,
        groups-done main_id subs TaskStatus.cancelled r8,
        groups-done main_id subs TaskStatus.retrying r9,
        rows-done main_id subs,
      )

  pub totals-total :
      (add_summaries (summarize_sub_tasks main_id subs) no_totals).total
      ≡ count_where (λ t. t.main_task_id == main_id) subs
  unfolding summarize_sub_tasks all_in groups
  totals-total =
      let r9 : List TaskStatus = [] in
      let r8 = TaskStatus.retrying ∷ r9 in
      let r7 = TaskStatus.cancelled ∷ r8 in
      let r6 = TaskStatus.failed ∷ r7 in
      let r5 = TaskStatus.partial ∷ r6 in
      let r4 = TaskStatus.success ∷ r5 in
      let r3 = TaskStatus.paused ∷ r4 in
      let r2 = TaskStatus.running ∷ r3 in
      let r1 = TaskStatus.pending ∷ r2 in
      omega (
        arith,
        add_summaries-total (groups main_id subs all_statuses) no_totals,
        groups-all main_id subs TaskStatus.draft r1,
        groups-all main_id subs TaskStatus.pending r2,
        groups-all main_id subs TaskStatus.running r3,
        groups-all main_id subs TaskStatus.paused r4,
        groups-all main_id subs TaskStatus.success r5,
        groups-all main_id subs TaskStatus.partial r6,
        groups-all main_id subs TaskStatus.failed r7,
        groups-all main_id subs TaskStatus.cancelled r8,
        groups-all main_id subs TaskStatus.retrying r9,
        rows-all main_id subs,
      )
