-- ===== src/Trust.antt =====
-- Control evidence and the trust decision (internal/trust/trust.go).
pub mod Evidence
pub mod Context
pub mod Decision
pub mod Eligibility
pub mod Source
