-- ===== src/Db.antt =====
-- pkg/db and pkg/result: sessions, queries and transactions over a database driver, which is the
-- parameter `Driver`.
pub mod Types
pub mod Driver
pub mod Exec
pub mod Rows
pub mod Query
pub mod Transaction
pub mod Slots
pub mod Stream
pub mod Open
