-- ===== src/Engine.antt =====
-- src/engine.rs: one writer database that holds namespaces in separate key ranges.
pub mod Keys
pub mod Serde
pub mod Read
pub mod Sums
pub mod Effect
pub mod Draft
pub mod Accounted
pub mod Write
pub mod Namespaces
pub mod Erase
pub mod Pages
pub mod Build
