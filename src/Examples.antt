-- ===== src/Examples.antt =====
-- Concrete campaigns, records and messages for the theorems of the other modules.
mod Tasks
mod Records
mod Config
mod Scheduler
mod Campaigns
mod Callbacks
mod Queues
mod Domain
mod Gateway
mod Aggregator
