-- ===== src/Examples.antt =====
-- Concrete settings and stores, with the theorems applied to them.
pub mod Setting
pub mod Stores
mod Local
mod Session
mod Connection
mod Traffic
mod Sync
mod Exchange
mod Engine
mod Wire
mod Keys
