-- ===== src/Plugin.antt =====
-- internal/driver/driver.go and hostdevice.go: what the kubelet and the container runtime call.
pub mod Types
pub mod Pending
pub mod Waiting
pub mod Kept
pub mod Restore
pub mod Restored
pub mod Unprepare
pub mod Cleared
pub mod Run
pub mod Ran
pub mod Prepare
pub mod Inspect
pub mod Desk
pub mod Claims
pub mod Prepared
