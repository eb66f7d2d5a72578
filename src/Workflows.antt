-- ===== src/Workflows.antt =====
-- The scripts that keep the workflow documents: scripts/sanitize_workflows.py, sync_snippets.py
-- and lint_workflows.py.
pub mod Files
pub mod Sanitize
pub mod Values
pub mod Snippets
pub mod Lint
mod Runs
mod Sample
mod Tests
