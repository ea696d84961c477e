-- ===== src/Prelude/Results.antt =====
-- What a Go call ends in: a value, an `error`, or a panic of the goroutine.
use Prim.Native.String.{String}
use mathlib.Core.Path.{◌≡◌, refl, subst}
use mathlib.Core.Bool.{Bool, true, false}
use mathlib.Core.Option.{Option, none, some}
use moco.Prelude.Tests.{if◌then◌else◌}

-- The errors that the code tests for by identity have a constructor of their own.
pub data Error : Type 0 where
  nop timeout errant_transactions no_top_runner bad_connection conflict not_found : Error
  message : String → Error

pub data Outcome {ℓ} (A : Type ℓ) : Type ℓ where
  ok : A → Outcome A
  err : Error → Outcome A
  panic : Outcome A

infixl 5 ◌>>=◌ ◌>>◌
abbrev pub ◌>>=◌ {ℓ κ} : {A : Type ℓ} {B : Type κ} → Outcome A → (A → Outcome B) → Outcome B
◌>>=◌ panic next = panic
◌>>=◌ (err e) next = err e
◌>>=◌ (ok a) next = next a

abbrev pub ◌>>◌ {ℓ κ} : {A : Type ℓ} {B : Type κ} → Outcome A → Outcome B → Outcome B
◌>>◌ first second = first >>= λ _. second

-- A read through a pointer, or of a slice's element: nil and an index out of range panic.
abbrev pub deref {ℓ} : {A : Type ℓ} → Option A → Outcome A
deref none = panic
deref (some a) = ok a

pub >>=-eq-ok {ℓ κ} :
    {A : Type ℓ} {B : Type κ} (first : Outcome A) (next : A → Outcome B) {b : B}
    → (first >>= next) ≡ ok b
    → (a : A) × (first ≡ ok a) × (next a ≡ ok b)
>>=-eq-ok panic next end = cc
>>=-eq-ok (err e) next end = cc
>>=-eq-ok (ok a) next end = (a, refl, end)

pub ok-injective {ℓ} : {A : Type ℓ} {a b : A} → ok a ≡ ok b → a ≡ b
ok-injective h = cc

pub deref-eq-ok {ℓ} : {A : Type ℓ} (o : Option A) {a : A} → deref o ≡ ok a → o ≡ some a
deref-eq-ok none h = cc
deref-eq-ok (some b) h = cc

-- The call returns a value: neither an error nor a panic.
abbrev pub Returns {ℓ} : {A : Type ℓ} → Outcome A → Type ℓ
Returns {A = A} m = (a : A) × (m ≡ ok a)

pub Returns->>= {ℓ κ} :
    {A : Type ℓ} {B : Type κ} (m : Outcome A) (f : A → Outcome B)
    → Returns m
    → ((a : A) → Returns (f a))
    → Returns (m >>= f)
Returns->>= m f (a, e) h = rw e (h a)

pub Returns-if {ℓ} :
    {A : Type ℓ} (b : Bool) (x y : Outcome A) → Returns x → Returns y → Returns (if b then x else y)
Returns-if true x y hx hy = hx
Returns-if false x y hx hy = hy

-- The call does not panic; it may return an error.
abbrev pub NoPanic {ℓ} : {A : Type ℓ} → Outcome A → Type 0
NoPanic (ok _) = Unit
NoPanic (err _) = Unit
NoPanic panic = ⊥

-- What a call ensures of the value that it returns, if it returns one.
module _ {ℓ κ} {A : Type ℓ} (P : A → Type κ) where
  abbrev pub Ensures : Outcome A → Type (ℓ ⊔ κ)
  Ensures m = (a : A) → m ≡ ok a → P a

  pub Ensures-pure : {a : A} → P a → Ensures (ok a)
  Ensures-pure {a} h b e = subst P (ok-injective e) h

  pub Ensures-bind {μ} :
      {B : Type μ} (m : Outcome B) (f : B → Outcome A)
      → ((b : B) → m ≡ ok b → Ensures (f b))
      → Ensures (m >>= f)
  Ensures-bind m f h a e = let (b, eb, e') = >>=-eq-ok m f e in h b eb a e'

  pub Ensures-if :
      (b : Bool) (x y : Outcome A)
      → (b ≡ true → Ensures x)
      → (b ≡ false → Ensures y)
      → Ensures (if b then x else y)
  Ensures-if true x y hx hy = hx refl
  Ensures-if false x y hx hy = hy refl
