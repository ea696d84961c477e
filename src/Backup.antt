-- ===== src/Backup.antt =====
-- Backups and restorations of a cluster (backup/, pkg/bkop/binlog.go).
pub mod Choice
pub mod Run
pub mod Nearest
pub mod Restore
mod Tests
