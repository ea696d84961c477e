-- ===== src/Api.antt =====
-- The API types of `api/v1beta2`, and the parts of the Kubernetes core types that the code reads.
pub mod Names
pub mod Cluster
pub mod Validation
pub mod Pod
pub mod Claim
pub mod Job
