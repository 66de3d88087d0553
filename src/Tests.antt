-- ===== src/Tests.antt =====
-- The theorems at concrete inputs: one NZBGet client, a job of it, and the calls about them.
pub mod Data
mod Clients
mod Gateway
mod Calls
mod Sessions
mod Adapters
pub mod Webs
pub mod Server
mod Processes
mod Listing
