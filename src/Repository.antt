-- ===== src/Repository.antt =====
-- The repositories of backend/internal/repository/postgres, as calls on the store.
pub mod Messages
pub mod Chats
pub mod Outbox
pub mod Sessions
pub mod Users
pub mod Writer
