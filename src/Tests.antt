-- ===== src/Tests.antt =====
-- Tests on concrete inputs, and each theorem at an input where its conditions hold.
pub mod Demo
pub mod Realtime
pub mod Sockets
pub mod Tables
pub mod Tasks
pub mod Members
pub mod Garage
pub mod Instances
pub mod Redis
pub mod Deployed
pub mod Headers
pub mod Postgis
