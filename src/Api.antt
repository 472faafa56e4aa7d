-- ===== src/Api.antt =====
-- internal/api: the handlers and checks of the HTTP server.
pub mod EnvFile
pub mod EnvTests
pub mod Session
pub mod SessionTests
pub mod Login
pub mod LoginTests
pub mod Setup
pub mod SetupTests
