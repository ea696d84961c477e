-- ===== src/Backup/Choice/Ready.antt =====
-- The first ready pod (backup/backup.go).
use moco.Prelude.{
  ℕ, suc, ◌≡◌, ◌≢◌, refl, ap, ◌∙◌, ◌=?◌, =?_iff, =?_false, true, false, inl, inr, Option, none,
  some, [], ◌∷◌, ok, get_elem?, All, AllFrom, StandsAt, Bool-cases,
}
use moco.Api.Pod.{Pod}
use moco.Backup.Choice.{Slots, pod_is_ready, first_ready}

abbrev pub IsFilled : Option Pod → Type 0
IsFilled o = (pod : Pod) × (o ≡ some pod)

abbrev pub IsUnready : Option Pod → Type 0
IsUnready o = (pod : Pod) → o ≡ some pod → pod_is_ready pod ≡ false

-- A ready pod stands at the index.
abbrev pub IsSource : Slots → ℕ → Type 0
IsSource pods i = (pod : Pod) × (get_elem? pods i ≡ some (some pod)) × (pod_is_ready pod ≡ true)

module _ (primary : ℕ) (pods : Slots) where
  abbrev pub OthersUnready : ℕ → Slots → Type 0
  OthersUnready = AllFrom (λ j o. j ≢ primary → IsUnready o)

  abbrev pub FirstReady : ℕ → Slots → Option ℕ → Type 0
  FirstReady i rest none = OthersUnready i rest
  FirstReady i rest (some j) = (j ≢ primary) × IsSource pods j

  later-FirstReady :
      (i : ℕ) (slot : Option Pod) (rest : Slots) (o : Option ℕ)
      → (i ≢ primary → IsUnready slot)
      → FirstReady (suc i) rest o
      → FirstReady i (slot ∷ rest) o
  later-FirstReady i slot rest none u h = (u, h)
  later-FirstReady i slot rest (some j) u h = h

  pub first_ready_lem :
      (i : ℕ) (rest : Slots)
      → All IsFilled rest
      → StandsAt pods i rest
      → (o : Option ℕ) × (first_ready primary i rest ≡ ok o) × FirstReady i rest o
  unfolding first_ready
  first_ready_lem i [] f h = (none, refl, tt)
  first_ready_lem i (slot ∷ rest) f h =
      let (o, e, r) = first_ready_lem (suc i) rest f.1 h.1 in
      let (pod, q) = f.0 in
      elim (Bool-cases (i =? primary)) [
        | inl t ↦
            let p = (=?_iff i primary).0 t in
            rw t (o, e, later-FirstReady i slot rest o (λ n. elim (n p) [ ]) r)
        | inr d ↦
            rw (d, q)
              (elim (Bool-cases (pod_is_ready pod)) [
                | inl y ↦ rw y (some i, refl, (=?_false i primary d, (pod, h.0 ∙ ap some q, y)))
                | inr n ↦ rw n (
                  o,
                  e,
                  later-FirstReady i (some pod) rest o (λ _ x k. let z : pod ≡ x = cc in rw (← z) n)
                      r,
                )
              ])
      ]
