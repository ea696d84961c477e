-- ===== src/Controllers/Partition/Total.antt =====
-- How a reconciliation of the partition ends (controllers/partition_controller.go).
use moco.Prelude.{
  ℕ, zero, suc, ◌≡◌, ◌≤◌, ◌<◌, refl, arith, Bool, true, false, not, ◌==◌, ◌=?◌, =?_iff, Option,
  none, some, List, [], ◌∷◌, deref, Outcome, ok, err, panic, Error, ◌>>=◌, if◌then◌else◌, get_or,
  get_elem?, length, NoPanic, &&_true,
}
use moco.Prelude.Dict.{value_of}
use moco.Effects.{Reply, value, failure}
use moco.Controllers.Partition.{
  RolloutPod, StatefulSet, OwningCluster, PartitionEnv, from_reply, flatten, positive,
  next_rollout_target, need_partition_update, sorted_pods, target_rollout_ready, pods_rollout_ready,
  is_rollout_ready, patch_from, patched_with, patch_new_partition, advance, is_stale,
  reconcile_cluster,
}

-- No panic: the slices are read in range, and the partition is there when it is patched.
module _ {A B : Type 0} where
  NoPanic->>= :
      (m : Outcome A) (f : A → Outcome B)
      → NoPanic m
      → ((a : A) → m ≡ ok a → NoPanic (f a))
      → NoPanic (m >>= f)
  NoPanic->>= (ok a) f h k = k a refl
  NoPanic->>= (err e) f h k = tt
  NoPanic->>= panic f h k = elim h [ ]

module _ {A : Type 0} where
  NoPanic-if :
      (b : Bool) (x y : Outcome A)
      → (b ≡ true → NoPanic x)
      → (b ≡ false → NoPanic y)
      → NoPanic (if b then x else y)
  NoPanic-if true x y hx hy = hx refl
  NoPanic-if false x y hx hy = hy refl

  NoPanic-from_reply : (r : Reply A) → NoPanic (from_reply r)
  NoPanic-from_reply (value a) = tt
  NoPanic-from_reply (failure e) = tt

  get_elem?-NoPanic : (xs : List A) (i : ℕ) → i < length xs → NoPanic (deref (get_elem? xs i))
  get_elem?-NoPanic [] i h = absurd (omega (arith, h))
  get_elem?-NoPanic (x ∷ xs) zero h = tt
  get_elem?-NoPanic (x ∷ xs) (suc i) h = get_elem?-NoPanic xs i (omega (arith, h))

module _ (env : PartitionEnv) (sts : StatefulSet) (c : OwningCluster) where
  target-NoPanic :
      (pods : List RolloutPod) (u : Option (Option ℕ))
      → get_or 0 (flatten u) ≤ length pods
      → NoPanic (target_rollout_ready env c sts pods (next_rollout_target u))
  unfolding target_rollout_ready next_rollout_target
  target-NoPanic pods none h = tt
  target-NoPanic pods (some none) h = tt
  target-NoPanic pods (some (some zero)) h = tt
  target-NoPanic pods (some (some (suc m))) h =
      NoPanic->>= (deref (get_elem? pods m)) _ (get_elem?-NoPanic pods m (omega (arith, h)))
        (λ pod e. tt)

  is_rollout_ready-NoPanic :
      get_or 0 (flatten sts.rolling_update) ≤ get_or 1 sts.replicas
      → NoPanic (is_rollout_ready env c sts)
  unfolding is_rollout_ready pods_rollout_ready
  is_rollout_ready-NoPanic h =
      NoPanic-if (get_or 1 sts.replicas =? sts.updated_replicas) _ _ (λ _. tt)
        (λ _.
          NoPanic->>= (from_reply env.list_pods) _ (NoPanic-from_reply env.list_pods) (λ items ei.
            NoPanic-if (get_or 1 sts.replicas =? length (sorted_pods items)) _ _
              (λ l.
                let l' = (=?_iff (get_or 1 sts.replicas) (length (sorted_pods items))).0 l in
                target-NoPanic (sorted_pods items) sts.rolling_update (omega (arith, h, l')))
              (λ _. tt)))

  patch_from-NoPanic : (n : ℕ) → NoPanic (patch_from env n)
  unfolding patch_from patched_with
  patch_from-NoPanic zero = tt
  patch_from-NoPanic (suc n) = patched_with-NoPanic env.patch n
    where
      patched_with-NoPanic : (r : Option Error) (m : ℕ) → NoPanic (patched_with r m)
      patched_with-NoPanic none m = tt
      patched_with-NoPanic (some e) m = tt

  patch-NoPanic : (o : Option ℕ) → positive o ≡ true → NoPanic (deref o >>= patch_from env)
  patch-NoPanic none h = cc
  patch-NoPanic (some n) h = patch_from-NoPanic n

  advance-NoPanic :
      positive (flatten sts.rolling_update) ≡ true → (b : Bool) → NoPanic (advance env sts b)
  unfolding advance patch_new_partition
  advance-NoPanic h false = tt
  advance-NoPanic h true =
      NoPanic-if env.allows _ _
        (λ _.
          NoPanic->>= (deref (flatten sts.rolling_update) >>= patch_from env) _
            (patch-NoPanic (flatten sts.rolling_update) h) (λ new e. tt))
        (λ _. tt)

  need-positive : need_partition_update sts ≡ true → positive (flatten sts.rolling_update) ≡ true
  unfolding need_partition_update
  need-positive h =
      (&&_true (not (value_of "moco.cybozu.com/force-rolling-update" sts.annotations == "true")) _
        h).1

-- If the partition is at most the number of replicas, then a reconciliation returns or fails with an
-- error: the list of pods is read in range, and the partition is there when it is lowered.
pub reconcile_cluster-NoPanic :
    (env : PartitionEnv) (sts : StatefulSet) (c : OwningCluster)
    → get_or 0 (flatten sts.rolling_update) ≤ get_or 1 sts.replicas
    → NoPanic (reconcile_cluster env sts c)
unfolding reconcile_cluster
reconcile_cluster-NoPanic env sts c h =
    NoPanic-if (is_stale c sts) _ _ (λ _. tt)
      (λ _.
        NoPanic-if (need_partition_update sts) _ _
          (λ need.
            NoPanic->>= (is_rollout_ready env c sts) (advance env sts)
              (is_rollout_ready-NoPanic env sts c h)
              (λ b e. advance-NoPanic env sts c (need-positive env sts c need) b))
          (λ _. tt))
