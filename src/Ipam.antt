-- ===== src/Ipam.antt =====
-- internal/driver/ipam.go: the choice and the reservation of a pod's address.
pub mod Ranges
pub mod Apply
pub mod Pools
pub mod Claim
