-- ===== src/Controllers/Pvc/Classless.antt =====
-- A claim without a storage class in the way of a resize (controllers/pvc.go).
use moco.Prelude.{◌≡◌, refl, Option, none, some, List, [], ◌∷◌, ◌++◌, panic, All}
use moco.Prelude.Dict.{Dict, lookup}
use moco.Prelude.Int.{ℤ}
use moco.Api.Claim.{Claim}
use moco.Effects.{Trace, ◌>>=◌, lift}
use moco.Controllers.Pvc.{
  PvcEnv, resize_each, resize_one, resize_kept, is_volume_expansion_supported, skip,
}

module _ (env : PvcEnv) (keep : Dict (Option ℤ)) where
  -- If the first listed claim that is to be kept names no storage class, the resize panics, and
  -- makes no call: the message that reports the skipped claim reads the name through a nil pointer.
  pub resize_each_panics :
      (before : List Claim) (pvc : Claim) (after : List Claim) (size : Option ℤ) (tr : Trace)
      → All (λ c. lookup c.name keep ≡ none) before
      → lookup pvc.name keep ≡ some size
      → pvc.storage_class_name ≡ none
      → resize_each env keep (before ++ (pvc ∷ after)) tr ≡ (panic, tr)
  unfolding resize_each resize_one resize_kept is_volume_expansion_supported skip ◌>>=◌ lift
  resize_each_panics [] pvc after size tr b e n = rw (e, n) refl
  resize_each_panics (c ∷ before) pvc after size tr b e n =
      rw (b.0, resize_each_panics before pvc after size tr b.1 e n) refl
