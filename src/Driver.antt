-- ===== src/Driver.antt =====
-- The kernel filter driver under HidHide/src.
pub mod Status
pub mod ProcessTree
pub mod MultiString
pub mod Session
pub mod Blacklist
pub mod Processes
pub mod Framework
pub mod Registry
pub mod Control
pub mod Requests
pub mod Access
pub mod Lifetime
pub mod Start
pub mod SelfTest
