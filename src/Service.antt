-- ===== src/Service.antt =====
-- The services of backend/internal/service.
pub mod MessageParts
pub mod Messages
pub mod Clients
pub mod Sessions
pub mod Membership
pub mod ChatParts
pub mod Chats
pub mod Profiles
pub mod Credentials
pub mod Accounts
pub mod Sockets
