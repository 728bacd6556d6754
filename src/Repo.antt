-- ===== src/Repo.antt =====
-- The repositories (internal/infrastructure/persistence/postgres): each method is the SQL text it
-- sends, read as a function on the tables, with the constraints that dev-doc/sql puts on them.
pub mod Participants
pub mod Rooms
pub mod Members
pub mod Invitations
pub mod Friendships
pub mod Messages
pub mod Keys
pub mod GroupKeys
pub mod Users
pub mod Found
pub mod Written
pub mod Stable
pub mod Everywhere
