-- ===== src/Plan.antt =====
-- The compilation of a workflow into an immutable plan (internal/plan).
pub mod Admission
pub mod Concurrency
pub mod Limits
pub mod ToolLimits
pub mod ToolPolicy
pub mod Outcomes
pub mod Results
pub mod Workspaces
