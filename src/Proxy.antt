-- ===== src/Proxy.antt =====
-- The reverse proxy: internal/proxy.
pub mod Host
pub mod RateLimit
pub mod Route
pub mod Claim
pub mod IpAccess
pub mod Rules
pub mod SetRoutes
pub mod Handler
pub mod Match
pub mod Resolve
mod RuleTests
mod Tests
mod ResolveTests
