-- ===== src/Gateway.antt =====
-- internal/push/gateway.go: the push gateway, which takes a message from the queue and sends it.
-- The services that it calls answer by the number of the call, so that a theorem over all services
-- covers every way in which they answer, fail, and change from one call to the next.
pub mod Services
pub mod Snapshot
pub mod Checks
pub mod Attempts
pub mod Sending
pub mod Modes
pub mod Handler
pub mod Outcomes
pub mod Calls
pub mod Attempting
pub mod Acknowledged
pub mod Licence
pub mod Gates
pub mod Caching
pub mod Budget
pub mod Again
pub mod Untouched
pub mod Recorded
