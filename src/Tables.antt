-- ===== src/Tables.antt =====
-- What the SQL statements of backend/internal/repository/postgres do to the tables.
pub mod Messages
pub mod Chats
pub mod Outbox
pub mod Sessions
pub mod Users
