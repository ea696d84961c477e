-- ===== src/Effects/Safe.antt =====
-- Computations that do not panic, whatever calls were made before them.
use moco.Prelude.{
  ℕ, zero, suc, ◌<◌, ◌≡◌, refl, Bool, true, false, Option, none, some, List, [], ◌∷◌, Outcome, ok,
  err, panic, Error, NoPanic, if◌then◌else◌,
}
use moco.Prelude
use moco.Effects.{
  M, Env, Trace, Call, Reply, value, failure, ◌>>=◌, lift, command, record_reply, record_error,
}
use moco.Effects.Ends.{Ends, Ends-bind}

-- An error, or a value of which `Q` holds.
abbrev pub Safe : {A : Type 0} → (A → Type 0) → Outcome A → Type 0
Safe Q (ok a) = Q a
Safe Q (err e) = Unit
Safe Q panic = ⊥

pub Safe->>= :
    {A B : Type 0} (Q : A → Type 0) (R : B → Type 0) (m : Outcome A) (f : A → Outcome B)
    → Safe Q m
    → ((a : A) → Q a → Safe R (f a))
    → Safe R (Prelude.◌>>=◌ m f)
Safe->>= Q R (ok a) f h k = k a h
Safe->>= Q R (err e) f h k = tt
Safe->>= Q R panic f h k = h

pub Safe-imp :
    {A : Type 0} {Q R : A → Type 0} (o : Outcome A) → ((a : A) → Q a → R a) → Safe Q o → Safe R o
Safe-imp (ok a) h q = h a q
Safe-imp (err e) h q = tt
Safe-imp panic h q = q

pub Safe-NoPanic : {A : Type 0} (o : Outcome A) → Safe (λ _. Unit) o → NoPanic o
Safe-NoPanic (ok a) h = tt
Safe-NoPanic (err e) h = tt
Safe-NoPanic panic h = h

pub NoPanic-Safe : {A : Type 0} (o : Outcome A) → NoPanic o → Safe (λ _. Unit) o
NoPanic-Safe (ok a) h = tt
NoPanic-Safe (err e) h = tt
NoPanic-Safe panic h = h

pub Safe-if :
    {A : Type 0} (Q : A → Type 0) (b : Bool) (x y : Outcome A)
    → Safe Q x
    → Safe Q y
    → Safe Q (if b then x else y)
Safe-if Q true x y hx hy = hx
Safe-if Q false x y hx hy = hy

module _ {A B : Type 0} (Q : A → Type 0) (R : B → Type 0) where
  pub Safe-bind :
      {m : M A} {f : A → M B}
      → Ends (Safe Q) m
      → ((a : A) → Q a → Ends (Safe R) (f a))
      → Ends (Safe R) (m >>= f)
  Safe-bind t h = Ends-bind {P = Safe Q} {Q = Safe R} t h (λ e p. tt) (λ p. p)

module _ {A : Type 0} (Q : A → Type 0) where
  pub Safe-lift : (o : Outcome A) → Safe Q o → Ends (Safe Q) (lift o)
  unfolding lift
  Safe-lift o h = record { run = λ tr. h }

  reply-Safe :
      (c : Call) (r : Reply A) (tr : Trace)
      → ((a : A) → r ≡ value a → Q a)
      → Safe Q (record_reply c r tr).0
  reply-Safe c (value a) tr h = h a refl
  reply-Safe c (failure e) tr h = tt

  pub Safe-reply :
      (c : Call) (answer : Trace → Reply A)
      → ((tr : Trace) (a : A) → answer tr ≡ value a → Q a)
      → Ends (Safe Q) (λ tr. record_reply c (answer tr) tr)
  Safe-reply c answer h = record { run = λ tr. reply-Safe c (answer tr) tr (h tr) }

error-Safe : (c : Call) (r : Option Error) (tr : Trace) → Safe (λ _. Unit) (record_error c r tr).0
error-Safe c none tr = tt
error-Safe c (some e) tr = tt

pub Safe-command : (env : Env) (c : Call) → Ends (Safe (λ _. Unit)) (command env c)
unfolding command
Safe-command env c = record { run = λ tr. error-Safe c (env.result tr c) tr }
