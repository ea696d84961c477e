-- ===== src/Effects/Triple.antt =====
-- A logic of the calls: what holds of the trace before a computation, after a result, after an
-- error and after a panic. A rule for each way to compose computations.
use moco.Prelude.{
  ℕ, zero, suc, ◌≡◌, refl, Bool, true, false, Option, none, some, ◌∷◌, Outcome, ok, err, panic,
  Error, nop, timeout, errant_transactions, no_top_runner, bad_connection, conflict, not_found,
  message, if◌then◌else◌,
}
use moco.Effects.{
  Call, Entry, Trace, Reply, value, failure, Env, M, pure, fail, lift, continue, ◌>>=◌, when,
  record_reply, record_error, after_conflict, retry_loop, note, command, retry_on_conflict,
}

abbrev pub After :
    {A : Type 0}
    → (A → Trace → Type 0)
    → (Trace → Type 0)
    → (Trace → Type 0)
    → Outcome A × Trace
    → Type 0
After Q E X (ok a, tr) = Q a tr
After Q E X (err e, tr) = E tr
After Q E X (panic, tr) = X tr

pub record Triple {A : Type 0} (P : Trace → Type 0) (m : M A) (Q : A → Trace → Type 0)
    (E X : Trace → Type 0) : Type 0 where
  pub run : (tr : Trace) → P tr → After Q E X (m tr)

abbrev pub done : Call → Entry
done c = record { call = c; succeeded = true }

abbrev pub failed : Call → Entry
failed c = record { call = c; succeeded = false }

module _ {A : Type 0} {P : Trace → Type 0} {Q : A → Trace → Type 0} {E X : Trace → Type 0} where
  pub Triple-pure : {a : A} → ((tr : Trace) → P tr → Q a tr) → Triple P (pure a) Q E X
  Triple-pure h = record { run = h }

  pub Triple-fail : {e : Error} → ((tr : Trace) → P tr → E tr) → Triple P (fail {A = A} e) Q E X
  Triple-fail h = record { run = h }

  -- A value that is at hand: it is known in what follows.
  pub Triple-lift :
      (o : Outcome A) {a : A} → o ≡ ok a → ((tr : Trace) → P tr → Q a tr) → Triple P (lift o) Q E X
  unfolding lift
  Triple-lift o e h = record { run = λ tr p. rw e (h tr p) }

  -- A value that may be missing, where all three ends are covered.
  pub Triple-lift_any :
      (o : Outcome A)
      → ((a : A) → o ≡ ok a → (tr : Trace) → P tr → Q a tr)
      → ((tr : Trace) → P tr → E tr)
      → ((tr : Trace) → P tr → X tr)
      → Triple P (lift o) Q E X
  unfolding lift
  Triple-lift_any (ok a) q e x = record { run = q a refl }
  Triple-lift_any (err r) q e x = record { run = e }
  Triple-lift_any panic q e x = record { run = x }

  pub Triple-if :
      (b : Bool) {x y : M A}
      → (b ≡ true → Triple P x Q E X)
      → (b ≡ false → Triple P y Q E X)
      → Triple P (if b then x else y) Q E X
  Triple-if true hx hy = hx refl
  Triple-if false hx hy = hy refl

  pub Triple-weaken :
      {P' : Trace → Type 0} {m : M A}
      → ((tr : Trace) → P tr → P' tr)
      → Triple P' m Q E X
      → Triple P m Q E X
  Triple-weaken h t = record { run = λ tr p. t.run tr (h tr p) }

module _ {A B : Type 0} (R : A → Trace → Type 0) (Q : B → Trace → Type 0)
    (E X : Trace → Type 0) where
  bind-After :
      (f : A → M B) (r : Outcome A × Trace)
      → After R E X r
      → ((a : A) → Triple (R a) (f a) Q E X)
      → After Q E X (continue f r)
  bind-After f (ok a, tr') h k = (k a).run tr' h
  bind-After f (err e, tr') h k = h
  bind-After f (panic, tr') h k = h

module _ {A : Type 0} (Q : A → Trace → Type 0) (E X : Trace → Type 0) where
  reply-After :
      (c : Call) (r : Reply A) (tr : Trace)
      → ((a : A) → Q a (done c ∷ tr))
      → E (failed c ∷ tr)
      → After Q E X (record_reply c r tr)
  reply-After c (value a) tr q e = q a
  reply-After c (failure x) tr q e = e

module _ (Q : Unit {0} → Trace → Type 0) (E X : Trace → Type 0) where
  error-After :
      (c : Call) (r : Option Error) (tr : Trace)
      → Q tt (done c ∷ tr)
      → E (failed c ∷ tr)
      → After Q E X (record_error c r tr)
  error-After c none tr q e = q
  error-After c (some x) tr q e = e

module _ {A B : Type 0} {P : Trace → Type 0} {R : A → Trace → Type 0} {Q : B → Trace → Type 0}
    {E X : Trace → Type 0} where
  pub Triple-bind :
      {m : M A} {f : A → M B}
      → Triple P m R E X
      → ((a : A) → Triple (R a) (f a) Q E X)
      → Triple P (m >>= f) Q E X
  unfolding ◌>>=◌
  Triple-bind {m} {f} t k = record { run = λ tr p. bind-After R Q E X f (m tr) (t.run tr p) k }

module _ {A : Type 0} {P : Trace → Type 0} {Q : A → Trace → Type 0} {E X : Trace → Type 0} where
  -- A call that returns a value: any value, or an error.
  pub Triple-reply :
      (c : Call) (answer : Trace → Reply A)
      → ((tr : Trace) → P tr → (a : A) → Q a (done c ∷ tr))
      → ((tr : Trace) → P tr → E (failed c ∷ tr))
      → Triple P (λ tr. record_reply c (answer tr) tr) Q E X
  Triple-reply c answer q e = record {
    run = λ tr p. reply-After Q E X c (answer tr) tr (q tr p) (e tr p);
  }

module _ {P : Trace → Type 0} {Q : Unit {0} → Trace → Type 0} {E X : Trace → Type 0} where
  pub Triple-when :
      (b : Bool) {m : M (Unit {0})}
      → (b ≡ true → Triple P m Q E X)
      → (b ≡ false → (tr : Trace) → P tr → Q tt tr)
      → Triple P (when b m) Q E X
  unfolding when
  Triple-when true hm hn = hm refl
  Triple-when false hm hn = record { run = hn refl }

  pub Triple-command :
      (env : Env) (c : Call)
      → ((tr : Trace) → P tr → Q tt (done c ∷ tr))
      → ((tr : Trace) → P tr → E (failed c ∷ tr))
      → Triple P (command env c) Q E X
  unfolding command
  Triple-command env c q e = record {
    run = λ tr p. error-After Q E X c (env.result tr c) tr (q tr p) (e tr p);
  }

  pub Triple-note :
      (c : Call) → ((tr : Trace) → P tr → Q tt (done c ∷ tr)) → Triple P (note c) Q E X
  unfolding note
  Triple-note c q = record { run = q }

  conflict-After :
      (again : M (Unit {0})) (r : Outcome (Unit {0}) × Trace)
      → ((tr : Trace) → E tr → P tr)
      → Triple P again Q E X
      → After Q E X r
      → After Q E X (after_conflict again r)
  conflict-After again (ok x, tr) back t h = h
  conflict-After again (panic, tr) back t h = h
  conflict-After again (err conflict, tr) back t h = t.run tr (back tr h)
  conflict-After again (err nop, tr) back t h = h
  conflict-After again (err timeout, tr) back t h = h
  conflict-After again (err errant_transactions, tr) back t h = h
  conflict-After again (err no_top_runner, tr) back t h = h
  conflict-After again (err bad_connection, tr) back t h = h
  conflict-After again (err not_found, tr) back t h = h
  conflict-After again (err (message s), tr) back t h = h

  retry_triple :
      (n : ℕ) (f : M (Unit {0}))
      → ((tr : Trace) → E tr → P tr)
      → Triple P f Q E X
      → Triple P (retry_loop n f) Q E X
  unfolding retry_loop
  retry_triple zero f back t = t
  retry_triple (suc n) f back t = record {
    run =
        λ tr p. conflict-After (retry_loop n f) (f tr) back (retry_triple n f back t) (t.run tr p);
  }

  -- The function may be called any number of times, again from where an error leaves it.
  pub Triple-retry_on_conflict :
      (env : Env) {f : M (Unit {0})}
      → ((tr : Trace) → E tr → P tr)
      → Triple P f Q E X
      → Triple P (retry_on_conflict env f) Q E X
  unfolding retry_on_conflict
  Triple-retry_on_conflict env {f} back t = record {
    run = λ tr p. (retry_triple (env.retries tr) f back t).run tr p;
  }

-- What holds at all ends holds of the trace.
pub After-trace :
    {A : Type 0} (P : Trace → Type 0) (r : Outcome A × Trace) → After (λ _. P) P P r → P r.1
After-trace P (ok a, tr) h = h
After-trace P (err e, tr) h = h
After-trace P (panic, tr) h = h

module _ {A B : Type 0} {P : Trace → Type 0} {Q : B → Trace → Type 0} {E X : Trace → Type 0} where
  -- A value that may be missing, and is known in what follows.
  pub Triple-lift_bind :
      (o : Outcome A) {f : A → M B}
      → ((a : A) → o ≡ ok a → Triple P (f a) Q E X)
      → ((tr : Trace) → P tr → E tr)
      → ((tr : Trace) → P tr → X tr)
      → Triple P (lift o >>= f) Q E X
  unfolding lift ◌>>=◌
  Triple-lift_bind (ok a) q e x = record { run = (q a refl).run }
  Triple-lift_bind (err r) q e x = record { run = e }
  Triple-lift_bind panic q e x = record { run = x }
