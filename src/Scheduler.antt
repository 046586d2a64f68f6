-- ===== src/Scheduler.antt =====
-- internal/scheduler: the splitter and the worker. The aggregator has a module of its own.
pub mod Sampling
pub mod Campaign
pub mod Batch
pub mod World
pub mod Splitter
pub mod Split
pub mod Messages
pub mod Worker
pub mod Runs
