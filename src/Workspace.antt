-- ===== src/Workspace.antt =====
-- database/repositories/investigations.py and investigation_repo.py: the tables that belong to users.
pub mod Rows
pub mod Targets
pub mod Searches
pub mod Watchlists
pub mod Reports
pub mod Investigations
pub mod Commands
pub mod Isolation
pub mod Results
pub mod Unseen
pub mod Private
pub mod Active
pub mod Limit
mod Tests
