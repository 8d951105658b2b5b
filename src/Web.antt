-- ===== src/Web.antt =====
-- The server's front door: server/security/requestGate.ts and the two layers that it composes,
-- originGuard.ts and instanceToken.ts, which decide on a request before any handler sees it.
pub mod Text
pub mod Cookie
pub mod OriginGuard
pub mod InstanceToken
pub mod RequestGate
pub mod Trusted
pub mod Safety
pub mod Bootstrap
mod Tests
