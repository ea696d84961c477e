-- ===== src/Controllers/Partition/Rollout.antt =====
-- When the partition of a StatefulSet is lowered (controllers/partition_controller.go).
use moco.Prelude.{
  ℕ, zero, suc, ◌≡◌, ◌<◌, refl, ap, ◌∙◌, arith, Bool, true, false, not, ◌&&◌, ◌||◌, ◌==◌, ◌=?◌,
  =?_iff, leb, Option, none, some, List, [], ◌∷◌, ◌⊎◌, inl, inr, All, AllFrom, deref, deref-eq-ok,
  Error, ok, ok-injective, >>=-eq-ok, is_some, get_or, get_elem?, length, Ensures, Ensures-pure,
  Ensures-bind, Ensures-if, &&_true, not-true,
}
use moco.Effects.{Reply, value, failure}
use moco.Controllers.Partition.{
  RolloutPod, StatefulSet, OwningCluster, PartitionEnv, Reconciled, revision_of, from_reply,
  flatten, next_rollout_target, need_partition_update, sorted_pods, all_ready, is_settled,
  others_settled, target_ready, target_rollout_ready, pods_rollout_ready, is_rollout_ready,
  patch_from, patched_with, patch_new_partition, advance, is_stale, reconcile_cluster,
}

-- The pod at index `i` does not stand in the way of restarting the pod at index `n`.
abbrev pub IsSettled : PartitionEnv → StatefulSet → ℕ → ℕ → RolloutPod → Type 0
IsSettled env sts n i pod =
    (i ≡ n)
    ⊎ (((i < suc n) ⊎ ((revision_of pod == sts.update_revision) ≡ true))
        × (is_some pod.deletion_timestamp ≡ false)
        × (env.is_pod_available pod ≡ true)
        × All (λ b. b ≡ true) pod.init_containers
        × All (λ b. b ≡ true) pod.containers)

abbrev pub MayRestart : PartitionEnv → StatefulSet → OwningCluster → ℕ → Type 0
MayRestart env sts c n =
    (get_or 1 sts.replicas ≡ sts.updated_replicas)
    ⊎ ((items : List RolloutPod) × (pod : RolloutPod) × (env.list_pods ≡ value items)
        × (get_or 1 sts.replicas ≡ length (sorted_pods items))
        × (get_elem? (sorted_pods items) n ≡ some pod)
        × (((revision_of pod == sts.update_revision) ≡ true)
            ⊎ (((env.is_pod_ready pod ≡ false)
                  ⊎ (env.is_condition_true c.conditions "Healthy" ≡ true))
                × AllFrom (IsSettled env sts n) 0 (sorted_pods items))))

||_true : (a b : Bool) → (a || b) ≡ true → (a ≡ true) ⊎ (b ≡ true)
||_true true b h = inl refl
||_true false b h = inr h

all_ready-All : (l : List Bool) → all_ready l ≡ true → All (λ b. b ≡ true) l
unfolding all_ready
all_ready-All [] h = tt
all_ready-All (b ∷ bs) h = let (hb, hs) = &&_true b _ h in (hb, all_ready-All bs hs)

module _ (env : PartitionEnv) (sts : StatefulSet) (c : OwningCluster) (n : ℕ) where
  IsSettled-IsSettled :
      (i : ℕ) (pod : RolloutPod)
      → ((i =? n) || is_settled env (suc n) sts.update_revision i pod) ≡ true
      → IsSettled env sts n i pod
  unfolding is_settled
  IsSettled-IsSettled i pod h = elim (||_true (i =? n) _ h) [
    | inl e ↦ inl ((=?_iff i n).0 e)
    | inr s ↦
        let (r, s1) = &&_true (not (leb (suc n) i) || revision_of pod == sts.update_revision) _ s in
        let (d, s2) = &&_true (not (is_some pod.deletion_timestamp)) _ s1 in
        let (a, s3) = &&_true (env.is_pod_available pod) _ s2 in
        let (f, g) = &&_true (all_ready pod.init_containers) _ s3 in
        inr (
          elim (||_true (not (leb (suc n) i)) _ r) [ inl x ↦ inl (ground arith) | inr y ↦ inr y ],
          not-true _ d,
          a,
          all_ready-All _ f,
          all_ready-All _ g,
        )
  ]

  others_settled-All :
      (i : ℕ) (pods : List RolloutPod)
      → others_settled env (suc n) sts.update_revision n i pods ≡ true
      → AllFrom (IsSettled env sts n) i pods
  unfolding others_settled
  others_settled-All i [] h = tt
  others_settled-All i (pod ∷ rest) h =
      let (a, b) = &&_true ((i =? n) || is_settled env (suc n) sts.update_revision i pod) _ h in
      (IsSettled-IsSettled i pod a, others_settled-All (suc i) rest b)

  ready_or_healthy : (r h : Bool) → not (r && not h) ≡ true → (r ≡ false) ⊎ (h ≡ true)
  ready_or_healthy false h e = inl refl
  ready_or_healthy true true e = inr refl
  ready_or_healthy true false e = cc

  next_of_flatten :
      (u : Option (Option ℕ)) → flatten u ≡ some (suc n) → next_rollout_target u ≡ some n
  unfolding next_rollout_target
  next_of_flatten none e = cc
  next_of_flatten (some none) e = cc
  next_of_flatten (some (some zero)) e = cc
  next_of_flatten (some (some (suc m))) e = cc

  target_ready-MayRestart :
      (pods : List RolloutPod) (pod : RolloutPod)
      → flatten sts.rolling_update ≡ some (suc n)
      → target_ready env c sts n pods pod ≡ true
      → ((revision_of pod == sts.update_revision) ≡ true)
        ⊎ (((env.is_pod_ready pod ≡ false) ⊎ (env.is_condition_true c.conditions "Healthy" ≡ true))
            × AllFrom (IsSettled env sts n) 0 pods)
  unfolding target_ready
  target_ready-MayRestart pods pod p h =
      elim (||_true (revision_of pod == sts.update_revision) _ h) [
        | inl e ↦ inl e
        | inr s ↦
            let (a, b) =
              &&_true
                (not (env.is_pod_ready pod && not (env.is_condition_true c.conditions "Healthy"))) _
                s in
            inr (ready_or_healthy _ _ a, others_settled-All 0 pods (rw p at b))
      ]

  abbrev Restarts : Bool → Type 0
  Restarts b = b ≡ true → MayRestart env sts c n

  from_reply-value : {A : Type 0} (r : Reply A) {a : A} → from_reply r ≡ ok a → r ≡ value a
  from_reply-value (value a) e = ap value (ok-injective e)
  from_reply-value (failure x) e = cc

  target_rollout_ready-Restarts :
      (items : List RolloutPod) (o : Option ℕ)
      → flatten sts.rolling_update ≡ some (suc n)
      → env.list_pods ≡ value items
      → get_or 1 sts.replicas ≡ length (sorted_pods items)
      → o ≡ some n
      → Ensures Restarts (target_rollout_ready env c sts (sorted_pods items) o)
  unfolding target_rollout_ready
  target_rollout_ready-Restarts items none p ei l e = cc
  target_rollout_ready-Restarts items (some i) p ei l e =
      let same : i ≡ n = cc in
      rw same (
        Ensures-bind Restarts (deref (get_elem? (sorted_pods items) n)) _ λ pod ep.
          Ensures-pure Restarts (λ t. inr (
            items,
            pod,
            ei,
            l,
            deref-eq-ok _ ep,
            target_ready-MayRestart (sorted_pods items) pod p t,
          )))

  is_rollout_ready-Restarts :
      flatten sts.rolling_update ≡ some (suc n) → Ensures Restarts (is_rollout_ready env c sts)
  unfolding is_rollout_ready pods_rollout_ready
  is_rollout_ready-Restarts p =
      Ensures-if Restarts (get_or 1 sts.replicas =? sts.updated_replicas) _ _
        (λ e.
          Ensures-pure Restarts
            (λ _. inl ((=?_iff (get_or 1 sts.replicas) sts.updated_replicas).0 e)))
        (λ _. Ensures-bind Restarts (from_reply env.list_pods) _ λ items ei.
          Ensures-if Restarts (get_or 1 sts.replicas =? length (sorted_pods items)) _ _
            (λ l.
              target_rollout_ready-Restarts items _ p (from_reply-value env.list_pods ei)
                ((=?_iff (get_or 1 sts.replicas) (length (sorted_pods items))).0 l)
                (next_of_flatten sts.rolling_update p))
            (λ _. Ensures-pure Restarts (λ e. cc)))

-- What holds of the cluster and its StatefulSet where the partition is lowered to `n`.
abbrev pub Lowered : PartitionEnv → StatefulSet → OwningCluster → ℕ → Type 0
Lowered env sts c n =
    (flatten sts.rolling_update ≡ some (suc n))
    × (env.allows ≡ true)
    × (is_stale c sts ≡ false)
    × (need_partition_update sts ≡ true)
    × MayRestart env sts c n

module _ (env : PartitionEnv) where
  abbrev Patches : StatefulSet → OwningCluster → Reconciled → Type 0
  Patches sts c r = (n : ℕ) → r.patched ≡ some n → Lowered env sts c n

  patched_with-some : (r : Option Error) (m n : ℕ) → patched_with r m ≡ ok (some n) → m ≡ n
  unfolding patched_with
  patched_with-some none m n e = let e' : some m ≡ some n = ok-injective e in cc
  patched_with-some (some x) m n e = cc

  patch_from-suc : (m n : ℕ) → patch_from env m ≡ ok (some n) → m ≡ suc n
  unfolding patch_from
  patch_from-suc zero n e = cc
  patch_from-suc (suc m) n e = ap suc (patched_with-some env.patch m n e)

  patch_new_partition-flatten :
      (sts : StatefulSet) (n : ℕ)
      → patch_new_partition env sts ≡ ok (some n)
      → flatten sts.rolling_update ≡ some (suc n)
  unfolding patch_new_partition
  patch_new_partition-flatten sts n e =
      let (m, em, ep) = >>=-eq-ok (deref (flatten sts.rolling_update)) (patch_from env) e in
      deref-eq-ok _ em ∙ ap some (patch_from-suc m n ep)

  advance-Patches :
      (sts : StatefulSet) (c : OwningCluster) (b : Bool)
      → is_stale c sts ≡ false
      → need_partition_update sts ≡ true
      → is_rollout_ready env c sts ≡ ok b
      → Ensures (Patches sts c) (advance env sts b)
  unfolding advance
  advance-Patches sts c false fresh need ready = Ensures-pure (Patches sts c) (λ n e. cc)
  advance-Patches sts c true fresh need ready =
      Ensures-if (Patches sts c) env.allows _ _
        (λ allowed. Ensures-bind (Patches sts c) (patch_new_partition env sts) _ λ new en.
          Ensures-pure (Patches sts c) (λ n e.
            let p = patch_new_partition-flatten sts n (en ∙ ap ok e) in
            (p, allowed, fresh, need, is_rollout_ready-Restarts env sts c n p true ready refl)))
        (λ _. Ensures-pure (Patches sts c) (λ n e. cc))

  reconcile_cluster-Patches :
      (sts : StatefulSet) (c : OwningCluster)
      → Ensures (Patches sts c) (reconcile_cluster env sts c)
  unfolding reconcile_cluster
  reconcile_cluster-Patches sts c =
      Ensures-if (Patches sts c) (is_stale c sts) _ _
        (λ _. Ensures-pure (Patches sts c) (λ n e. cc))
        (λ fresh.
          Ensures-if (Patches sts c) (need_partition_update sts) _ _
            (λ need.
              Ensures-bind (Patches sts c) (is_rollout_ready env c sts) (advance env sts)
                λ b ready. advance-Patches sts c b fresh need ready)
            (λ _. Ensures-pure (Patches sts c) (λ n e. cc)))

-- If a reconciliation of a StatefulSet lowers the partition to `n`, then the partition was `n + 1`;
-- the rate limiter allowed it, neither generation is behind, no forced update is asked for; and
-- either all replicas are updated, or the pods are as many as the replicas and the pod `n` in the
-- order of the names is updated already, or else it is not ready or the cluster is healthy, and each
-- other pod is available with all containers ready, not terminating, and updated if it is above `n`.
pub reconcile_cluster-Lowered :
    (env : PartitionEnv) (sts : StatefulSet) (c : OwningCluster) (r : Reconciled) (n : ℕ)
    → reconcile_cluster env sts c ≡ ok r
    → r.patched ≡ some n
    → Lowered env sts c n
reconcile_cluster-Lowered env sts c r n e p = reconcile_cluster-Patches env sts c r e n p
