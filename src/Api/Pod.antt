-- ===== src/Api/Pod.antt =====
-- The fields of `corev1.Pod` that the code reads.
use moco.Prelude.{ℕ, String, Option, List}
use moco.Prelude.Dict.{Dict}
use moco.Api.Cluster.{ConditionStatus}

pub record PodCondition : Type 0 where
  pub typ : String
  pub status : ConditionStatus

pub record Pod : Type 0 where
  pub name : String
  pub labels : Dict String
  pub annotations : Dict String
  -- Seconds since the epoch.
  pub deletion_timestamp : Option ℕ
  pub conditions : List PodCondition
  pub pod_ip : String
