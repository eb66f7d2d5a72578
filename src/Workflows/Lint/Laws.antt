-- ===== src/Workflows/Lint/Laws.antt =====
-- What the linter reports.
pub mod Urls
pub mod Reports
pub mod Nodes
pub mod Settled
pub mod Passes
pub mod Bodies
pub mod Sanitized
pub mod Synced
