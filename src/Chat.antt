-- ===== src/Chat.antt =====
-- The chat use cases (internal/application/chat/usecase): one module per use case, each a call of the
-- repositories in the order of its `Execute`.
pub mod Errors
pub mod Admission
pub mod CreateRoom
pub mod Join
pub mod Approve
pub mod Respond
pub mod MediaPath
pub mod Send
pub mod Participation
pub mod Reading
pub mod Overview
pub mod Invited
pub mod Steps
pub mod Preserves
pub mod System
pub mod Membership
pub mod Capacity
pub mod Soundness
pub mod Atomic
