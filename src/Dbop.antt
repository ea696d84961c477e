-- ===== src/Dbop.antt =====
-- `pkg/dbop`: what is read from a MySQL instance, and the choice of the most advanced replica.
pub mod Types
pub mod TopRunner
