-- ===== src/Effects/Ends.antt =====
-- What a computation ends in, whatever calls were made before it.
use moco.Prelude.{
  ◌≡◌, refl, Outcome, ok, ok-injective, err, panic, Error, Bool, true, false, if◌then◌else◌, String,
  ℕ,
}
use moco.Effects.{M, Env, Trace, value, ◌>>=◌, continue, gtid_within, pure, fail, lift}

pub record Ends {A : Type 0} (P : Outcome A → Type 0) (m : M A) : Type 0 where
  pub run : (tr : Trace) → P (m tr).0

module _ {A : Type 0} {P : Outcome A → Type 0} where
  pub Ends-pure : (a : A) → P (ok a) → Ends P (pure a)
  Ends-pure a p = record { run = λ tr. p }

  pub Ends-fail : (e : Error) → P (err e) → Ends P (fail {A = A} e)
  Ends-fail e p = record { run = λ tr. p }

  pub Ends-if :
      (b : Bool) {x y : M A}
      → (b ≡ true → Ends P x)
      → (b ≡ false → Ends P y)
      → Ends P (if b then x else y)
  Ends-if true hx hy = hx refl
  Ends-if false hx hy = hy refl

module _ {A B : Type 0} (P : Outcome A → Type 0) (Q : Outcome B → Type 0) (f : A → M B) where
  continue_ends :
      (r : Outcome A × Trace)
      → P r.0
      → ((a : A) → P (ok a) → Ends Q (f a))
      → ((e : Error) → P (err e) → Q (err e))
      → (P panic → Q panic)
      → Q (continue f r).0
  continue_ends (ok a, tr) p h e x = (h a p).run tr
  continue_ends (err r, tr) p h e x = e r p
  continue_ends (panic, tr) p h e x = x p

module _ {A B : Type 0} {P : Outcome A → Type 0} {Q : Outcome B → Type 0} where
  pub Ends-bind :
      {m : M A} {f : A → M B}
      → Ends P m
      → ((a : A) → P (ok a) → Ends Q (f a))
      → ((e : Error) → P (err e) → Q (err e))
      → (P panic → Q panic)
      → Ends Q (m >>= f)
  unfolding ◌>>=◌
  Ends-bind {m} {f} t h e x = record { run = λ tr. continue_ends P Q f (m tr) (t.run tr) h e x }

module _ {A B : Type 0} {Q : Outcome B → Type 0} where
  -- A computation whose value is known.
  pub Ends-known :
      {m : M A} (f : A → M B) (a : A) → Ends (λ r. r ≡ ok a) m → Ends Q (f a) → Ends Q (m >>= f)
  unfolding ◌>>=◌
  Ends-known {m} f a t h = record {
    run = λ tr.
        continue_ends (λ r. r ≡ ok a) Q f (m tr) (t.run tr)
          (λ b e. let e' : b ≡ a = ok-injective e in rw e' h) (λ x e. cc) (λ e. cc);
  }

module _ {A : Type 0} where
  pub Ends-lift : (a : A) → Ends (λ r. r ≡ ok a) (lift (ok a))
  unfolding lift
  Ends-lift a = record { run = λ tr. refl }

module _ (env : Env) where
  -- A comparison of GTID sets that is answered.
  pub Ends-gtid_within :
      (k : ℕ) (s t : String) (b : Bool)
      → ((tr : Trace) → env.gtid_subset tr k s t ≡ value b)
      → Ends (λ r. r ≡ ok b) (gtid_within env k s t)
  unfolding gtid_within
  Ends-gtid_within k s t b e = record { run = λ tr. rw (e tr) refl }
