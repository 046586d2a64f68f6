-- ===== src/Aggregator/Once.antt =====
-- internal/scheduler/aggregator.go: OnSubFinished counts a sub task once, and loses none.
use startlink.Base.{
  ℕ, Bool, true, false, List, ◌∷◌, ◌++◌, Option, none, some, any, ◌≡◌, ◌≢◌, refl, ◌⊎◌, arith,
}
use startlink.Domain.Status.{is_terminal}
use startlink.Tasks.Rows.{MainTask}
use startlink.Aggregator.Steps.{
  Mark, is_mark, Services, World, Write, counted, load_main, try_mark, after_mark, after_load,
  on_sub_finished,
}

abbrev pub is_marked : ℕ → ℕ → List Mark → Bool
is_marked main_id sub_id marks = any (is_mark main_id sub_id) marks

-- The other processes leave the mark where it is set.
abbrev pub KeepMark : Services → ℕ → ℕ → Type 0
KeepMark s main_id sub_id =
    (n : ℕ) (marks : List Mark)
    → is_marked main_id sub_id marks ≡ true
    → is_marked main_id sub_id (s.other_marks n marks) ≡ true

module _ (s : Services) (main_id sub_id : ℕ) where
  marked-after_load :
      (o : Option MainTask) (w : World)
      → sub_id ≢ 0
      → KeepMark s main_id sub_id
      → is_marked main_id sub_id w.marks ≡ true
      → (after_load s main_id sub_id o w).1.writes ≡ w.writes
  unfolding after_load after_mark try_mark
  marked-after_load none w n keep h = refl
  marked-after_load (some main) w n keep h = ground (arith, keep w.calls w.marks h)

-- A sub task that is marked as aggregated is not counted again: OnSubFinished for it writes nothing,
-- so long as no other process takes the mark away.
pub on_sub_finished-marked :
    (s : Services) (main_id sub_id : ℕ) (w : World)
    → sub_id ≢ 0
    → KeepMark s main_id sub_id
    → is_marked main_id sub_id w.marks ≡ true
    → (on_sub_finished s main_id sub_id w).1.writes ≡ w.writes
unfolding on_sub_finished load_main
on_sub_finished-marked s main_id sub_id w n keep h =
    let r = load_main s main_id w in marked-after_load s main_id sub_id r.0 r.1 n keep h

-- The increment of a campaign's sub_task_done is among the writes from `w` to `w'`.
abbrev pub IsCounted : World → World → Type 0
IsCounted w w' = (id : ℕ) × (later : List Write) × (w'.writes ≡ later ++ (counted id ∷ w.writes))

-- What OnSubFinished does with the mark of a sub task: it is not set, or the sub task is counted, or
-- the campaign had ended.
abbrev pub Settled : ℕ → ℕ → Option MainTask → World → World → Type 0
Settled main_id sub_id o w w' =
    (is_marked main_id sub_id w'.marks ≡ false)
    ⊎ IsCounted w w'
    ⊎ ((main : MainTask) × (o ≡ some main) × (is_terminal main.status ≡ true))
