-- ===== src/LocalStore.antt =====
-- src/datasync/localstore.cpp: the SQLite index, the data files and the transactions around them.
pub mod State
pub mod Access
pub mod Sync
pub mod Changes
pub mod Effects
pub mod Coherent
pub mod Updates
pub mod Writes
pub mod Outcomes
pub mod Saving
pub mod Loading
pub mod Removing
pub mod Atomicity
