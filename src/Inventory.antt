-- ===== src/Inventory.antt =====
-- internal/driver/inventory.go and the discovery of internal/driver/dpdk.go: what the driver reads
-- of the node's devices from sysfs. Paths is the text of paths and files, Identity an interface's
-- identity, Discover the PCI devices that are offered for DPDK, Published what holds of them.
pub mod Paths
pub mod Identity
pub mod Discover
pub mod Published
