-- ===== src/Examples.antt =====
-- The example programs of examples/.
pub mod Program
pub mod Endings
pub mod Signals
pub mod Threads
pub mod Workers
pub mod TimeTriggert
pub mod Mgmt
pub mod UdsServer
pub mod UserInfo
pub mod Daytime
pub mod CanBus
pub mod Stopped
