-- ===== src/Auth.antt =====
-- Login protection and client addresses: internal/auth.
pub mod Lockout
pub mod RateLimiter
pub mod RealIp
pub mod Crypto
pub mod CryptoTests
mod Tests
