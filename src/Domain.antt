-- ===== src/Domain.antt =====
-- internal/domain: the data types and the pure rules that the other parts share.
pub mod Status
pub mod Channel
pub mod Priority
pub mod Text
pub mod Costs
pub mod Schedule
pub mod Preference
pub mod RampUp
