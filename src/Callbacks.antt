-- ===== src/Callbacks.antt =====
-- internal/app/callback: the receipts that the vendors send in. Verifier is verifier.go, Receipts is
-- service.go.
pub mod Verifier
pub mod Receipts
