-- ===== src/Server.antt =====
-- cmd/server: the gateway.
pub mod Event
pub mod Jobs
pub mod Poll
pub mod System
pub mod Budget
pub mod Reply
pub mod Add
pub mod Adopt
pub mod Handlers
pub mod Config
pub mod Session
pub mod Process
pub mod Publisher
pub mod Routes
pub mod Console
pub mod Env
pub mod Live
