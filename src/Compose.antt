-- ===== src/Compose.antt =====
-- Compose files: internal/compose.
pub mod Yaml
pub mod Inject
pub mod InjectTests
pub mod HostPath
pub mod ResolvePath
pub mod Container
pub mod Build
pub mod Volume
pub mod Security
pub mod Layout
pub mod Validate
pub mod Endpoint
pub mod Scalable
mod Tests
mod ScaleTests
