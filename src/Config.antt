-- ===== src/Config.antt =====
-- internal/config/config.go: the configuration of the driver, its defaults and its checks.
mod Types
pub mod Load
pub use Types.{IpRange, Route, IpPool, InterfaceConfig, PciSelector, DpdkConfig, Config}
