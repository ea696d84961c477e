-- ===== src/Effects/Only.antt =====
-- Computations that make only calls of some kind, whatever the environment answers.
use moco.Prelude.{
  ℕ, zero, suc, String, ◌≡◌, refl, Bool, true, false, [], ◌∷◌, Outcome, ok, err, panic, Error,
  if◌then◌else◌, All,
}
use moco.Api.Cluster.{MySqlCluster}
use moco.Dbop.Types.{MySqlInstanceStatus}
use moco.Effects.{
  Call, Entry, Trace, Env, M, pure, fail, lift, ◌>>=◌, when, note, command, status, gtid_minus,
  gtid_within, cluster, secret, retry_on_conflict, modify_cluster, answered, answers, context_done,
  wait_restart, Reply, record_reply, failing, after_error, on_error, attempted, attempt, get_status,
  subtract_gtid, is_subset_gtid, read_cluster, read_secret, update_cluster,
}
use moco.Effects.Triple.{
  Triple, After, After-trace, Triple-pure, Triple-fail, Triple-lift_any, Triple-bind, Triple-reply,
  Triple-when, Triple-command, Triple-note, Triple-retry_on_conflict,
}

module _ (may : Call → Type 0) where
  abbrev pub OnlyCalls : Trace → Type 0
  OnlyCalls = All (λ e. may e.call)

-- However the computation ends, each of its calls satisfies `may`: what holds of the trace before and
-- is kept by such calls holds afterwards.
pub record Only {A : Type 0} (may : Call → Type 0) (m : M A) : Type 1 where
  pub kept :
      (R : Trace → Type 0)
      → ((e : Entry) → may e.call → (tr : Trace) → R tr → R (e ∷ tr))
      → Triple (R) m (λ _. R) (R) (R)

module _ {may : Call → Type 0} {A : Type 0} where
  pub Only-pure : (a : A) → Only may (pure a)
  Only-pure a = record { kept = λ R w. Triple-pure (λ tr h. h) }

  pub Only-fail : (e : Error) → Only may (fail {A = A} e)
  Only-fail e = record { kept = λ R w. Triple-fail (λ tr h. h) }

  pub Only-if : (b : Bool) {x y : M A} → Only may x → Only may y → Only may (if b then x else y)
  Only-if true hx hy = hx
  Only-if false hx hy = hy

  -- The branches know which of them is taken.
  pub Only-if-known :
      (b : Bool) {x y : M A}
      → (b ≡ true → Only may x)
      → (b ≡ false → Only may y)
      → Only may (if b then x else y)
  Only-if-known true hx hy = hx refl
  Only-if-known false hx hy = hy refl

  pub Only-lift : (o : Outcome A) → Only may (lift o)
  Only-lift o = record { kept = λ R w. Triple-lift_any o (λ a e tr h. h) (λ tr h. h) (λ tr h. h) }

module _ {may : Call → Type 0} {A B : Type 0} where
  pub Only-bind :
      {m : M A} {f : A → M B} → Only may m → ((a : A) → Only may (f a)) → Only may (m >>= f)
  Only-bind hm hf = record { kept = λ R w. Triple-bind (hm.kept R w) (λ a. (hf a).kept R w) }

  -- What is read from data at hand is known in what follows.
  pub Only-lift_bind :
      (o : Outcome A) {f : A → M B}
      → ((a : A) → o ≡ ok a → Only may (f a))
      → Only may (lift o >>= f)
  unfolding lift ◌>>=◌
  Only-lift_bind (ok a) h = record { kept = λ R w. record { run = ((h a refl).kept R w).run } }
  Only-lift_bind (err e) h = record { kept = λ R w. record { run = λ tr p. p } }
  Only-lift_bind panic h = record { kept = λ R w. record { run = λ tr p. p } }

module _ (R : Trace → Type 0) where
  answered-After :
      (r : Outcome MySqlInstanceStatus × Trace)
      → After (λ _. R) (R) (R) r
      → After (λ _. R) (R) (R) (answered r)
  answered-After (ok a, tr') h = h
  answered-After (err e, tr') h = h
  answered-After (panic, tr') h = h

module _ {may : Call → Type 0} (env : Env) where
  pub Only-when : (b : Bool) {m : M (Unit {0})} → (b ≡ true → Only may m) → Only may (when b m)
  Only-when b h = record { kept = λ R w. Triple-when b (λ e. (h e).kept R w) (λ e tr p. p) }

  pub Only-command : (c : Call) → may c → Only may (command env c)
  Only-command c h = record {
    kept = λ R w. Triple-command env c (λ tr p. w _ h tr p) (λ tr p. w _ h tr p);
  }

  pub Only-note : (c : Call) → may c → Only may (note c)
  Only-note c h = record { kept = λ R w. Triple-note c (λ tr p. w _ h tr p) }

  pub Only-status : (i : ℕ) → may (get_status i) → Only may (status env i)
  unfolding status
  Only-status i h = record {
    kept = λ R w. Triple-reply (get_status i) _ (λ tr p a. w _ h tr p) (λ tr p. w _ h tr p);
  }

  pub Only-gtid_minus :
      (i : ℕ) (s t : String) → may (subtract_gtid i s t) → Only may (gtid_minus env i s t)
  unfolding gtid_minus
  Only-gtid_minus i s t h = record {
    kept = λ R w. Triple-reply (subtract_gtid i s t) _ (λ tr p a. w _ h tr p) (λ tr p. w _ h tr p);
  }

  pub Only-gtid_within :
      (i : ℕ) (s t : String) → may (is_subset_gtid i s t) → Only may (gtid_within env i s t)
  unfolding gtid_within
  Only-gtid_within i s t h = record {
    kept = λ R w. Triple-reply (is_subset_gtid i s t) _ (λ tr p a. w _ h tr p) (λ tr p. w _ h tr p);
  }

  pub Only-cluster : may read_cluster → Only may (cluster env)
  unfolding cluster
  Only-cluster h = record {
    kept = λ R w. Triple-reply read_cluster _ (λ tr p a. w _ h tr p) (λ tr p. w _ h tr p);
  }

  pub Only-secret : (name : String) → may (read_secret name) → Only may (secret env name)
  unfolding secret
  Only-secret name h = record {
    kept = λ R w. Triple-reply (read_secret name) _ (λ tr p a. w _ h tr p) (λ tr p. w _ h tr p);
  }

  pub Only-retry_on_conflict : {f : M (Unit {0})} → Only may f → Only may (retry_on_conflict env f)
  Only-retry_on_conflict h = record {
    kept = λ R w. Triple-retry_on_conflict env (λ tr p. p) (h.kept R w);
  }

  pub Only-modify_cluster :
      (f : MySqlCluster → MySqlCluster)
      → may read_cluster
      → ((c : MySqlCluster) → may (update_cluster (f c)))
      → Only may (modify_cluster env f)
  unfolding modify_cluster
  Only-modify_cluster f r w =
      Only-bind (Only-cluster r) (λ c. Only-command (update_cluster (f c)) (w c))

  Only-answers : (i : ℕ) → may (get_status i) → Only may (answers env i)
  unfolding answers
  Only-answers i h = record {
    kept = λ R w. record {
      run = λ tr p. answered-After R (status env i tr) (((Only-status i h).kept R w).run tr p);
    };
  }

  pub Only-context_done : Only may (context_done env)
  unfolding context_done
  Only-context_done = record { kept = λ R w. record { run = λ tr p. p } }

  pub Only-wait_restart : (n i : ℕ) → may (get_status i) → Only may (wait_restart env n i)
  unfolding wait_restart
  Only-wait_restart zero i h = Only-pure tt
  Only-wait_restart (suc n) i h = Only-bind Only-context_done λ fin.
      Only-if fin (Only-fail _)
        (Only-bind (Only-answers i h) λ up. Only-if up (Only-pure tt) (Only-wait_restart n i h))

failing-After :
    (A : Type 0) (R : Trace → Type 0) (e : Error) (r : Outcome (Unit {0}) × Trace)
    → After (λ _. R) (R) (R) r
    → After (λ _. R) (R) (R) (failing {A = A} e r)
failing-After A R e (ok a, tr') h = h
failing-After A R e (err x, tr') h = h
failing-After A R e (panic, tr') h = h

module _ {A : Type 0} (R : Trace → Type 0) where
  after_error-After :
      (cleanup : M (Unit {0})) (r : Outcome A × Trace)
      → Triple (R) cleanup (λ _. R) (R) (R)
      → After (λ _. R) (R) (R) r
      → After (λ _. R) (R) (R) (after_error cleanup r)
  after_error-After cleanup (ok a, tr') t h = h
  after_error-After cleanup (err e, tr') t h = failing-After A R e (cleanup tr') (t.run tr' h)
  after_error-After cleanup (panic, tr') t h = h

module _ {A : Type 0} (R : Trace → Type 0) where
  attempted-After :
      (r : Outcome A × Trace) → After (λ _. R) (R) (R) r → After (λ _. R) (R) (R) (attempted r)
  attempted-After (ok a, tr') h = h
  attempted-After (err e, tr') h = h
  attempted-After (panic, tr') h = h

module _ {may : Call → Type 0} {A : Type 0} where
  -- Any call that returns a value.
  pub Only-reply :
      (c : Call) (answer : Trace → Reply A) → may c → Only may (λ tr. record_reply c (answer tr) tr)
  Only-reply c answer h = record {
    kept = λ R w. Triple-reply c answer (λ tr p a. w _ h tr p) (λ tr p. w _ h tr p);
  }

  pub Only-attempt : {m : M A} → Only may m → Only may (attempt m)
  unfolding attempt
  Only-attempt {m} h = record {
    kept = λ R w. record { run = λ tr p. attempted-After R (m tr) ((h.kept R w).run tr p) };
  }

  pub Only-on_error :
      {m : M A} {cleanup : M (Unit {0})}
      → Only may m
      → Only may cleanup
      → Only may (on_error m cleanup)
  unfolding on_error
  Only-on_error {m} {cleanup} hm hc = record {
    kept = λ R w. record {
      run = λ tr p. after_error-After R cleanup (m tr) (hc.kept R w) ((hm.kept R w).run tr p);
    };
  }

module _ {may may' : Call → Type 0} {A : Type 0} {m : M A} where
  pub Only-imp : ((c : Call) → may c → may' c) → Only may m → Only may' m
  Only-imp f h = record { kept = λ R w. h.kept R (λ e p. w e (f e.call p)) }

module _ {may : Call → Type 0} {A : Type 0} where
  -- The calls of a run, from the start.
  pub Only-calls : (m : M A) → Only may m → OnlyCalls may (m []).1
  Only-calls m h =
      After-trace (OnlyCalls may) (m []) ((h.kept (OnlyCalls may) (λ e p tr ps. (p, ps))).run [] tt)

-- The same of a computation whose result, if it has one, also satisfies `Q`.
pub record OnlyWith {A : Type 0} (may : Call → Type 0) (Q : A → Type 0) (m : M A) : Type 1 where
  pub kept :
      (R : Trace → Type 0)
      → ((e : Entry) → may e.call → (tr : Trace) → R tr → R (e ∷ tr))
      → Triple (R) m (λ a tr. Q a × R tr) (R) (R)

module _ {may : Call → Type 0} {A : Type 0} {Q : A → Type 0} where
  pub OnlyWith-pure : (a : A) → Q a → OnlyWith may Q (pure a)
  OnlyWith-pure a q = record { kept = λ R w. Triple-pure (λ tr h. (q, h)) }

  pub OnlyWith-if :
      (b : Bool) {x y : M A}
      → (b ≡ true → OnlyWith may Q x)
      → (b ≡ false → OnlyWith may Q y)
      → OnlyWith may Q (if b then x else y)
  OnlyWith-if true hx hy = hx refl
  OnlyWith-if false hx hy = hy refl

module _ {may : Call → Type 0} {A B : Type 0} {Q : A → Type 0} where
  -- What is known of the result is known in what follows.
  pub OnlyWith-Only :
      {m : M A} {f : A → M B}
      → OnlyWith may Q m
      → ((a : A) → Q a → Only may (f a))
      → Only may (m >>= f)
  OnlyWith-Only hm hf = record {
    kept = λ R w.
        Triple-bind (hm.kept R w) (λ a. record { run = λ tr p. ((hf a p.0).kept R w).run tr p.1 });
  }

  pub OnlyWith-bind :
      {S : B → Type 0} {m : M A} {f : A → M B}
      → OnlyWith may Q m
      → ((a : A) → Q a → OnlyWith may S (f a))
      → OnlyWith may S (m >>= f)
  OnlyWith-bind hm hf = record {
    kept = λ R w.
        Triple-bind (hm.kept R w) (λ a. record { run = λ tr p. ((hf a p.0).kept R w).run tr p.1 });
  }

  pub Only-with :
      {m : M B} {f : B → M A}
      → Only may m
      → ((b : B) → OnlyWith may Q (f b))
      → OnlyWith may Q (m >>= f)
  Only-with hm hf = record { kept = λ R w. Triple-bind (hm.kept R w) (λ b. (hf b).kept R w) }

module _ {may : Call → Type 0} {A B : Type 0} where
  pub OnlyWith-lift_bind :
      {S : B → Type 0} (o : Outcome A) {f : A → M B}
      → ((a : A) → o ≡ ok a → OnlyWith may S (f a))
      → OnlyWith may S (lift o >>= f)
  unfolding lift ◌>>=◌
  OnlyWith-lift_bind (ok a) h = record { kept = λ R w. record { run = ((h a refl).kept R w).run } }
  OnlyWith-lift_bind (err e) h = record { kept = λ R w. record { run = λ tr p. p } }
  OnlyWith-lift_bind panic h = record { kept = λ R w. record { run = λ tr p. p } }
