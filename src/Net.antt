-- ===== src/Net.antt =====
-- Socket and subnet addresses. `IpAddr` and the IPv4-mapped addresses are the standard library's;
-- the subnets of the `ipnet` crate, which the program only calls, are the interface `IpNet`.
mod Bits
mod Defs
mod Nested
unfoldable pub use Defs.*
pub use Nested.*
