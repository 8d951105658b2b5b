-- ===== src/Subnet.antt =====
-- common/SubnetParser.ts: the subnets that a scan covers, as the user writes them.
pub mod Text
pub mod Splitting
pub mod Address
pub mod Parser
pub mod Hosts
pub mod RoundTrip
pub mod Sound
mod Tests
