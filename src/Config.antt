-- ===== src/Config.antt =====
-- The configuration and the workflow, as decoded (internal/config).
pub mod Agents
pub mod Graph
pub mod Workflow
