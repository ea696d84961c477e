-- ===== src/Api/Validation/Ids.antt =====
-- `Default` of the webhook, which chooses the base of the server ids, and the ids of the instances
-- (api/v1beta2/mysqlcluster_webhook.go). `random` is the number that `rand.Read` has put in the
-- buffer, `none` its error.
use text.Mathlib.TextEquality.{eq_iff}
use moco.Prelude.{
  ℕ, zero, suc, ◌+◌, ◌%◌, ◌^◌, ◌<◌, ◌≤◌, ◌≡◌, refl, arith, String, ◌==◌, Bool, true, false, ◌||◌,
  Option, none, some, List, [], ◌∷◌, ◌++◌, if◌then◌else◌, Outcome, ok, err, panic, ok-injective,
  Bool-cases, inl, inr, lt→ltb,
}
use moco.Prelude.Dict.{has_text}
use moco.Prelude.Int.{ℤ, pos, negsuc, add_int32}
use moco.Api.Validation.{SubmittedCluster}

-- `controllerutil.AddFinalizer` adds a finalizer once.
unfoldable pub add_finalizer : String → List String → List String
unfolding has_text
add_finalizer t l = if has_text t l then l else l ++ (t ∷ [])

-- `int32(n & (MaxInt32 >> 1)) + 1`.
unfoldable pub random_base : ℕ → ℤ
random_base n = pos (n % 2 ^ 30 + 1)

unfoldable pub chosen_base : Option ℕ → ℤ → Outcome ℤ
unfolding random_base
chosen_base none (pos zero) = panic
chosen_base (some n) (pos zero) = ok (random_base n)
chosen_base r (pos (suc n)) = ok (pos (suc n))
chosen_base r (negsuc n) = ok (negsuc n)

module _ {Restore : Type 0} where
  abbrev with_base : SubmittedCluster Restore → Outcome ℤ → Outcome (SubmittedCluster Restore)
  with_base c (ok b) = ok (record c {
    finalizers = add_finalizer "moco.cybozu.com/mysqlcluster" c.finalizers;
    spec = record c.spec { server_id_base = b };
  })
  with_base c panic = panic
  with_base c (err e) = err e

  unfoldable pub default_cluster :
      Option ℕ → SubmittedCluster Restore → Outcome (SubmittedCluster Restore)
  unfolding chosen_base
  default_cluster random c = with_base c (chosen_base random c.spec.server_id_base)

below : (n : ℕ) → n % 2 ^ 30 < 2 ^ 30
below n = omega arith

sum_fits : (b i : ℕ) → b ≤ 2 ^ 30 → i < 2 ^ 30 → add_int32 b i ≡ pos (b + i)
unfolding add_int32
sum_fits b i hb hi = rw (lt→ltb (b + i) (2 ^ 31) (omega arith)) refl

module _ {Restore : Type 0} (c : SubmittedCluster Restore) where
  -- Where the submitted base of the server ids is zero, the webhook chooses one that is positive
  -- and at most 2^30, so that it added to an ordinal or a number of replicas below 2^30 does not
  -- overflow an int32.
  pub default_cluster-add_int32 :
      (n i : ℕ)
      → c.spec.server_id_base ≡ pos 0
      → i < 2 ^ 30
      → (c' : SubmittedCluster Restore) × (b : ℕ) × (default_cluster (some n) c ≡ ok c')
        × (c'.spec.server_id_base ≡ pos b)
        × (1 ≤ b)
        × (b ≤ 2 ^ 30)
        × (add_int32 b i ≡ pos (b + i))
  unfolding default_cluster random_base chosen_base
  default_cluster-add_int32 n i e h =
      let h' = below n in
      (
        record c {
          finalizers = add_finalizer "moco.cybozu.com/mysqlcluster" c.finalizers;
          spec = record c.spec { server_id_base = random_base n };
        },
        n % 2 ^ 30 + 1,
        rw e refl,
        refl,
        omega arith,
        omega arith,
        sum_fits (n % 2 ^ 30 + 1) i (omega arith) h,
      )

has_text-append : (t : String) (l : List String) → has_text t (l ++ (t ∷ [])) ≡ true
unfolding has_text
has_text-append t [] = rw ((eq_iff t t).1 refl) refl
has_text-append t (x ∷ xs) = rw (has_text-append t xs) (or_anything (x == t))
  where
    or_anything : (a : Bool) → (a || true) ≡ true
    or_anything true = refl
    or_anything false = refl

add_finalizer-has_text : (t : String) (l : List String) → has_text t (add_finalizer t l) ≡ true
unfolding add_finalizer
add_finalizer-has_text t l = elim (Bool-cases (has_text t l)) [
  | inl e ↦ rw (e, e) refl
  | inr e ↦ rw e (has_text-append t l)
]

add_finalizer_present : (t : String) (l : List String) → has_text t l ≡ true → add_finalizer t l ≡ l
unfolding add_finalizer
add_finalizer_present t l e = rw e refl

chosen_base-chosen_base :
    (r r' : Option ℕ) (z b : ℤ) → chosen_base r z ≡ ok b → chosen_base r' b ≡ ok b
unfolding chosen_base random_base
chosen_base-chosen_base none r' (pos zero) b e = cc
chosen_base-chosen_base (some n) r' (pos zero) b e =
    let q : pos (n % 2 ^ 30 + 1) ≡ b = cc in
    let k : n % 2 ^ 30 + 1 ≡ suc (n % 2 ^ 30) = omega arith in rw (← q, k) refl
chosen_base-chosen_base r r' (pos (suc n)) b e = let q : pos (suc n) ≡ b = cc in rw (← q) refl
chosen_base-chosen_base r r' (negsuc n) b e = let q : negsuc n ≡ b = cc in rw (← q) refl

module _ {Restore : Type 0} (c c' : SubmittedCluster Restore) (r r' : Option ℕ) where
  with_base_stable :
      (o : Outcome ℤ)
      → chosen_base r c.spec.server_id_base ≡ o
      → with_base c o ≡ ok c'
      → default_cluster r' c' ≡ ok c'
  unfolding default_cluster
  with_base_stable (err x) e h = cc
  with_base_stable panic e h = cc
  with_base_stable (ok b) e h =
      let t : String = "moco.cybozu.com/mysqlcluster" in
      let again = chosen_base-chosen_base r r' c.spec.server_id_base b e in
      let same = add_finalizer_present t _ (add_finalizer-has_text t c.finalizers) in
      rw (← ok-injective h, again, same) refl

  -- What the webhook has filled in, it leaves as it is when it is called again, whatever the random
  -- source then returns.
  pub default_cluster-default_cluster : default_cluster r c ≡ ok c' → default_cluster r' c' ≡ ok c'
  unfolding default_cluster
  default_cluster-default_cluster h = with_base_stable (chosen_base r c.spec.server_id_base) refl h
