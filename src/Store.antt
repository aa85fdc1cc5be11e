-- ===== src/Store.antt =====
-- pkg/db: the wrappers around the stores of third parties.
pub mod Cache
pub mod Redis
pub mod Mysql
