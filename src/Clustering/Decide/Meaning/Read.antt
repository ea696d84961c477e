-- ===== src/Clustering/Decide/Meaning/Read.antt =====
-- That the meanings and the readings of the states agree (clustering/status.go).
use moco.Prelude.{ℕ, suc, ◌≡◌, ◌≢◌, Option, List, [], ◌∷◌, ◌↔◌, AllFrom}
use moco.Api.Cluster.{host_of}
use moco.Dbop.Types.{MySqlInstanceStatus}
use moco.Clustering.StatusSet.{
  ClusterState, undecided, incomplete, healthy, cloning, restoring, degraded, failed, lost, offline,
  StatusSet, replicas_in_cluster,
}
use moco.Clustering.Decide.{count_ok_replicas}
use moco.Clustering.Decide.Reading.{count_sound, IsSoundSlot, Reading}
use moco.Clustering.Decide.Meaning.{Counts, IsMember, IsSoundAt, Serves, IsPromotable, Meaning}
use moco.Clustering.Decide.Meaning.Tested.{
  IsSound-iff, mode_iff, IsUncloned-iff, gone_iff, not_lost_iff, ready_iff,
}
use moco.Clustering.Decide.Meaning.Counted.{
  Counts-unique, replicas_in_cluster-Counts, count_ok_replicas-Counts, count_sound-Counts,
}

module _ (ss : StatusSet) where
  sound_slots :
      (i : ℕ) (l : List (Option MySqlInstanceStatus))
      → AllFrom (IsSoundSlot ss) i l ↔ AllFrom (λ j o. j ≢ ss.primary → IsSoundAt ss j o) i l
  sound_slots i [] = (λ h. tt, λ h. tt)
  sound_slots i (o ∷ rest) =
      let host = host_of ss.cluster ss.primary in
      let f = sound_slots (suc i) rest in
      (
        λ (h, t). (λ ne. (let (ist, e, p) = h ne in (ist, e, (IsSound-iff host ist).0 p)), f.0 t),
        λ (h, t). (λ ne. (let (ist, e, p) = h ne in (ist, e, (IsSound-iff host ist).1 p)), f.1 t),
      )

  hosts-Counts :
      (pst : MySqlInstanceStatus)
      → Counts
          (IsMember ss.cluster)
          0
          pst.replica_hosts
          (replicas_in_cluster ss.cluster pst.replica_hosts)
  hosts-Counts pst = replicas_in_cluster-Counts ss.cluster 0 pst.replica_hosts

  hosts_unique :
      (pst : MySqlInstanceStatus) (n : ℕ)
      → Counts (IsMember ss.cluster) 0 pst.replica_hosts n
      → n ≡ replicas_in_cluster ss.cluster pst.replica_hosts
  hosts_unique pst n c =
      Counts-unique (IsMember ss.cluster) 0 pst.replica_hosts n _ c (hosts-Counts pst)

  Serves-unique :
      (n : ℕ) → Counts (Serves ss) 0 ss.mysql_status n → n ≡ count_sound ss 0 ss.mysql_status
  Serves-unique n c =
      Counts-unique (Serves ss) 0 ss.mysql_status n _ c (count_sound-Counts ss 0 ss.mysql_status)

  promotable_unique :
      (n : ℕ)
      → Counts (IsPromotable ss) 0 ss.mysql_status n
      → n ≡ count_ok_replicas ss.primary 0 ss.mysql_status
  promotable_unique n c =
      Counts-unique (IsPromotable ss) 0 ss.mysql_status n _ c
        (count_ok_replicas-Counts ss 0 ss.mysql_status)

  pub Reading-Meaning : (st : ClusterState) → Reading ss st → Meaning ss st
  Reading-Meaning undecided r = r
  Reading-Meaning offline r = r
  Reading-Meaning restoring r = r
  Reading-Meaning cloning (has, fresh, (o, at, p)) = (has, fresh, (o, at, (IsUncloned-iff o).0 p))
  Reading-Meaning healthy (ready, sound, (pst, at, n, m)) = (
    ready,
    (sound_slots 0 ss.mysql_status).0 sound,
    (pst, _, at, hosts-Counts pst, n, (mode_iff ss.cluster pst).0 m),
  )
  Reading-Meaning degraded (ready, kept, (pst, at, m, n), half, short) = (
    (ready_iff ss ss.primary).0 ready,
    (not_lost_iff ss).0 kept,
    (pst, _, at, (mode_iff ss.cluster pst).0 m, hosts-Counts pst, n),
    (_, count_sound-Counts ss 0 ss.mysql_status, half, short),
  )
  Reading-Meaning failed ((o, at, g), many) =
      ((o, at, (gone_iff ss o).0 g), (_, count_ok_replicas-Counts ss 0 ss.mysql_status, many))
  Reading-Meaning lost ((o, at, g), few) =
      ((o, at, (gone_iff ss o).0 g), (_, count_ok_replicas-Counts ss 0 ss.mysql_status, few))
  Reading-Meaning incomplete (kept, up) = ((not_lost_iff ss).0 kept, up)

  pub Meaning-Reading : (st : ClusterState) → Meaning ss st → Reading ss st
  Meaning-Reading undecided m = m
  Meaning-Reading offline m = m
  Meaning-Reading restoring m = m
  Meaning-Reading cloning (has, fresh, (o, at, p)) = (has, fresh, (o, at, (IsUncloned-iff o).1 p))
  Meaning-Reading healthy (ready, sound, (pst, n, at, c, e, m)) = (
    ready,
    (sound_slots 0 ss.mysql_status).1 sound,
    (pst, at, rw (hosts_unique pst n c) at e, (mode_iff ss.cluster pst).1 m),
  )
  Meaning-Reading degraded (ready, kept, (pst, n, at, m, c, e), (k, d, half, short)) = (
    (ready_iff ss ss.primary).1 ready,
    (not_lost_iff ss).1 kept,
    (pst, at, (mode_iff ss.cluster pst).1 m, rw (hosts_unique pst n c) at e),
    rw (Serves-unique k d) at half,
    rw (Serves-unique k d) at short,
  )
  Meaning-Reading failed ((o, at, g), (n, c, many)) =
      ((o, at, (gone_iff ss o).1 g), rw (promotable_unique n c) at many)
  Meaning-Reading lost ((o, at, g), (n, c, few)) =
      ((o, at, (gone_iff ss o).1 g), rw (promotable_unique n c) at few)
  Meaning-Reading incomplete (kept, up) = ((not_lost_iff ss).1 kept, up)
