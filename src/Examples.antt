-- ===== src/Examples.antt =====
-- The theorems at concrete inputs, and tests of the definitions.
mod Tools
mod Guards
mod Evidence
mod Plans
mod Limits
mod Publications
mod Results
mod SafeOutputs
mod Verification
mod Workspaces
mod Concurrency
mod Graphs
mod ToolScopes
mod ToolPolicies
