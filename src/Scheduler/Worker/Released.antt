-- ===== src/Scheduler/Worker/Released.antt =====
-- internal/scheduler/worker.go, internal/adapter/repo/task.go: ReleaseSubTask and the worker.
use startlink.Base.{ℕ, Bool, ◌==◌}
use startlink.Tasks.Rows.{SubTask}
use startlink.Scheduler.World.{World}
use mathlib.Core.Option

abbrev by_id : ℕ → SubTask → Bool
by_id id t = t.id == id
