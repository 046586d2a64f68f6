-- ===== src/Aggregator/Ending.antt =====
-- internal/scheduler/aggregator.go: when a campaign is ended, and with what status.
use startlink.Base.{ℕ, ◌∷◌, ◌≡◌, ◌⊎◌}
use startlink.Domain.Status.{TaskStatus}
use startlink.Tasks.Rows.{MainTask}
use startlink.Aggregator.Steps.{World, finished, known_totals, final_status}

-- Nothing is written from `w` to `w'`; or one terminal status is, of the task `id`.
abbrev EndsWith : ℕ → TaskStatus → World → World → Type 0
EndsWith id final w w' = (w'.writes ≡ w.writes) ⊎ (w'.writes ≡ finished id final ∷ w.writes)

-- The status that the totals of Redis stand for, with those of the database where they are lost.
abbrev pub status_for : MainTask → ℕ × ℕ → TaskStatus
status_for main t = final_status (known_totals main t)
