-- ===== src/Driver.antt =====
-- internal/driver: the kubelet plugin's data, and its parts that decide on a claim's network.
mod Types
pub mod Network
pub mod Naming
pub mod Status
pub mod Dpdk
pub use Types.{
  InterfaceIdentity, DpdkDeviceState, HostAddressState, HostDeviceState, Route, NetworkConfig,
  NamespacedName, DeviceConfig, PodConfig, IpAllocation,
}
