-- ===== src/Tests.antt =====
-- Runs of the model on concrete values, and instances of its theorems.
pub mod Kermit
pub mod Platforms
pub mod Samples
pub mod Fields
pub mod Requests
pub mod Replies
pub mod Packets
pub mod Client
pub mod Driving
pub mod Geometry
pub mod Wrapper
pub mod Commands
pub mod Statuses
pub mod Nodes
pub mod UrgNodes
