-- ===== src/Scheduler/Split/Bounded.antt =====
-- internal/scheduler/splitter.go: the loop of Split ends.
use startlink.Scheduler.Campaign.{Campaign}
use startlink.Scheduler.Batch.{Batch}
use startlink.Scheduler.World.{World}
