-- ===== src/Backup.antt =====
-- Backups: internal/backup.
pub mod Archive
pub mod Cap
pub mod Pipeline
pub mod PipelineTests
mod Tests
