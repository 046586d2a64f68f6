-- ===== src/Aggregator.antt =====
-- internal/scheduler/aggregator.go: the aggregator, which counts the sub tasks that ended and ends
-- the campaign after the last.
pub mod Steps
pub mod Once
pub mod Ending
