-- ===== src/Tests.antt =====
-- Runs of the model on small inputs, and each theorem at an input that meets its hypotheses.
pub mod Serializing
pub mod Scheduling
pub mod Devices
pub mod Texts
pub mod Sockets
pub mod System
pub mod Starting
pub mod Programs
pub mod Buses
pub mod Terminating
pub mod Serving
pub mod Releasing
pub mod Ordering
pub mod Assigning
