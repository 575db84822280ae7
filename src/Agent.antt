-- ===== src/Agent.antt =====
-- pkg/agent: the synchronisation itself.
pub mod Schema
pub mod Monitor
pub mod Statements
pub mod Commands
pub mod Discovery
pub mod Cluster
pub mod Write
pub mod Read
pub mod Chunks
pub mod Sync
pub mod Replicate
pub mod Supervisor
pub mod Startup
pub mod Actions
pub mod Connect
