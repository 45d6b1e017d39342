-- ===== src/Net.antt =====
-- Go's package net, as far as the program uses it: addresses, their text, and subnets.
mod Address
mod Ipv6
mod Cidr
mod Printed
pub use Address.{
  Ip4, IsIp4, to_u32-of_u32, of_u32-to_u32, of_u32-IsIp4, to_u32-lt, parse_ipv4-IsIp4,
}
unfoldable pub use Address.{to_u32, of_u32, ip_string, parse_ipv4}
pub use Cidr.{Ip, ip4, ip6, IpNet, parse_ip4-IsIp4, contains_between}
unfoldable pub use Cidr.{to4, parse_ip, parse_cidr, contains_ip, parse_ip4}
pub use Printed.{trim_space-ip_string}
