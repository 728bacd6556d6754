-- ===== src/Auth.antt =====
-- Authentication: internal/infrastructure/auth/session, its repository
-- internal/infrastructure/persistence/postgres/session, and the cache it writes to.
pub mod World
pub mod Rules
pub mod Keeps
pub mod Sessions
pub mod Manager
