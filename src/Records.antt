-- ===== src/Records.antt =====
-- internal/adapter/repo/task.go, PushRepo: the delivery records and the receipts. A method runs
-- several statements; `fails i` says whether the i-th fails, and `others i` is what the other
-- processes do to the table between the statements, just before the i-th.
pub mod Rows
pub mod Writes
pub mod Claim
pub mod Keys
pub mod Exclusion
pub mod Forward
pub mod Race
pub mod Delivered
pub mod Outcomes
