-- ===== src/Domain.antt =====
-- The package `domain`: JSON values, snapshots and their differences, and the pure rules.
pub mod Json
pub mod Time
pub mod Calendar
pub mod Reference
pub mod Bootstrap
pub mod Live
pub mod Community
pub mod Rules
pub mod Changes
