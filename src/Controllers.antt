-- ===== src/Controllers.antt =====
-- The reconcilers (controllers/).
pub mod Partition
pub mod Pvc
