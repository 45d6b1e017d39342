-- ===== src/Host.antt =====
-- internal/driver/hostdevice.go: a physical interface that moves from the host's network
-- namespace into a pod's and back. Kernel is what the package netlink offers, Link a link's own
-- state, Moves the two moves, Pods what the driver restores when a pod or a claim goes.
pub mod Kernel
pub mod Link
pub mod Laws
pub mod Held
pub mod LinkBack
pub mod Here
pub mod Moves
pub mod Child
