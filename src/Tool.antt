-- ===== src/Tool.antt =====
-- The tool policy (internal/tool): the catalog of tools, the resolution of a scope's tool set, and
-- the guard that spends the call budgets while a run is under way.
pub mod Catalog
pub mod Scope
pub mod Guard
