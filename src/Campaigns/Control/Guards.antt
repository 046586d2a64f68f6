-- ===== src/Campaigns/Control/Guards.antt =====
-- internal/app/campaign/service.go: what Pause and Resume do in answer to an error, and to none.
use startlink.Base.{
  ℕ, suc, Bool, true, false, List, [], ◌∷◌, some, any, update_where, Update, if◌then◌else◌, ◌≡◌,
  refl, ◌⊎◌, inl, inr, arith, Bool-cases, Option-cases, try_execute, Reply,
}
use startlink.Domain.Status.{TaskStatus, is_resumable}
use startlink.Tasks.Rows.{MainTask}
use startlink.Tasks.Main.{get_main_task, resume_main_task, resume_update}
use startlink.Campaigns.{Services, World, Outcome, done, refused, and_then, on_mains, get, tick}
use startlink.Campaigns.Control.{StatusResult, status_if, has_subs, resume_if, resume}

-- The rows as the first call finds them, and then as the second does.
abbrev pub seen : Services → World → List MainTask
seen s w = s.other_mains w.calls w.mains

abbrev pub later : Services → World → List MainTask
later s w = s.other_mains (suc w.calls) (seen s w)

-- An error: the service wrote nothing, so that main_tasks is as the other processes left it. A result:
-- the first call read the campaign's row; then the update took a row, and main_tasks has that update and
-- no other change; and the result names the campaign and its status.
abbrev pub Guarded :
    Services
    → ℕ
    → World
    → (MainTask → Update MainTask)
    → (MainTask → TaskStatus)
    → Outcome StatusResult × World
    → Type 0
Guarded s id w u status (refused e, v) = (v.mains ≡ seen s w) ⊎ (v.mains ≡ later s w)
Guarded s id w u status (done r, v) =
    (m : MainTask) × (get_main_task id (seen s w) ≡ some m)
    × (any (u m).hits (later s w) ≡ true)
    × (v.mains ≡ update_where (u m).hits (u m).sets (later s w))
    × (r ≡ record { task_id = m.id; status = status m })

-- An update that takes no row changes none.
update_where-none :
    (hits : MainTask → Bool) (sets : MainTask → MainTask) (rows : List MainTask)
    → any hits rows ≡ false
    → update_where hits sets rows ≡ rows
update_where-none hits sets [] h = refl
update_where-none hits sets (r ∷ rows) h =
    let rest = update_where-none hits sets rows in ground (arith, h, rest)

module _ (s : Services) (id : ℕ) (w : World) (m : MainTask)
    (there : get_main_task id (seen s w) ≡ some m) where
  -- The world that the first call leaves.
  read : World
  read = record (tick w) { mains = seen s w }

  update-Guarded :
      (method : Bool → ℕ → List MainTask → Reply Bool × List MainTask)
      (u : MainTask → Update MainTask) (status : MainTask → TaskStatus)
      → ((fails : Bool) (rows : List MainTask)
          → method fails (s.clock (suc w.calls)) rows ≡ try_execute fails (u m) rows)
      → Guarded s id w u status (and_then (on_mains s method read) (status_if m.id (status m)))
  unfolding on_mains status_if read
  update-Guarded method u status runs = elim (Bool-cases (s.db_fails (suc w.calls))) [
    | inl broken ↦ rw (runs, broken) (inr refl)
    | inr works ↦ elim (Bool-cases (any (u m).hits (later s w))) [
      | inl hit ↦ rw (runs, works, hit) (m, there, hit, refl, refl)
      | inr miss ↦
          rw (runs, works, miss) (inr (update_where-none (u m).hits (u m).sets (later s w) miss))
    ]
  ]

  resume_if-Guarded :
      (b : Bool)
      → Guarded s id w
          (λ t. resume_update (s.clock (suc w.calls)) t.id (has_subs t))
          (λ t. if has_subs t then TaskStatus.running else TaskStatus.pending)
          (resume_if s m b read)
  unfolding resume_if
  resume_if-Guarded false = inl (unfold read in refl)
  resume_if-Guarded true =
      update-Guarded (λ fails now. resume_main_task fails now m.id (has_subs m)) _
        (λ t. if has_subs t then TaskStatus.running else TaskStatus.pending)
        (λ fails rows. unfold resume_main_task in refl)

-- Resume likewise; the status that the result tells is running if the row that was read has sub tasks,
-- and pending if it has none.
pub resume-Guarded :
    (s : Services) (id : ℕ) (w : World)
    → Guarded s id w
        (λ t. resume_update (s.clock (suc w.calls)) t.id (has_subs t))
        (λ t. if has_subs t then TaskStatus.running else TaskStatus.pending)
        (resume s id w)
unfolding resume get
resume-Guarded s id w = elim (Bool-cases (s.db_fails w.calls)) [
  | inl broken ↦ rw broken (inl refl)
  | inr works ↦ elim (Option-cases (get_main_task id (seen s w))) [
    | inl missing ↦ rw (works, missing) (inl refl)
    | inr (m, there) ↦
        rw (works, there) (unfold read in resume_if-Guarded s id w m there (is_resumable m.status))
  ]
]
