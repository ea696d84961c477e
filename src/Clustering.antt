-- ===== src/Clustering.antt =====
-- `clustering`: the goroutine that maintains one MySQL cluster.
mod Tests
pub mod Manager
pub mod StatusSet
pub mod Decide
pub mod Gather
pub mod Roles
pub mod Switchover
pub mod Failover
pub mod Configure
pub mod Process
