-- ===== src/Chat.antt =====
-- internal/chat.
pub mod Event
pub mod Workspace
pub mod Subscription
pub mod Retention
pub mod State
pub mod Stores
pub mod Subscribers
pub mod Runs
pub mod Interactions
pub mod Turn
pub mod Execution
pub mod Lifecycle
pub mod Steps
pub mod Machine
