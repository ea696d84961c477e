-- ===== src/Clustering/Decide/Reading/Down.antt =====
-- The states Cloning, Failed, Lost and Incomplete (clustering/status.go).
use moco.Prelude.{
  ◌/◌, ◌≤◌, ◌≡◌, refl, sym, Bool, true, false, not, ◌&&◌, Option, none, some, arith, ok, ◌>>=◌, ◌∙◌,
  >>=-eq-ok, ok-injective, Bool-cases, &&_true, not-true, inl, inr, ltb→lt, if◌then◌else◌, is_some,
  ltb, leb,
}
use moco.Dbop.Types.{MySqlInstanceStatus}
use moco.Clustering.StatusSet.{
  ClusterState, incomplete, cloning, failed, lost, StatusSet, lost_data,
}
use moco.Clustering.Decide.{
  primary_status, is_cloning, count_ok_replicas, primary_gone, is_failed, is_lost, decide_down,
}
use moco.Clustering.Decide.Reading.{PrimaryIs, Reading, primary_status-PrimaryIs}

module _ (ss : StatusSet) where
  pub is_cloning-Reading : is_cloning ss ≡ ok true → Reading ss cloning
  unfolding is_cloning
  is_cloning-Reading e =
      elim (Bool-cases
        (is_some ss.cluster.spec.replication_source_secret_name && not ss.cluster.status.cloned)) [
          | inl b ↦
              let (has, fresh) = &&_true _ _ b in
              let (o, eo, e') = >>=-eq-ok (primary_status ss) _ (rw b at e) in
              (has, not-true _ fresh, (o, primary_status-PrimaryIs ss o eo, ok-injective e'))
          | inr b ↦ let f : ok false ≡ ok true = rw b at e in cc
        ]

  -- The decision between Failed, Lost and Incomplete.
  abbrev down_state : Bool → ClusterState
  down_state gone =
      if gone && ltb (ss.cluster.spec.replicas / 2) (count_ok_replicas ss.primary 0 ss.mysql_status)
      then failed
      else if gone
          && leb (count_ok_replicas ss.primary 0 ss.mysql_status) (ss.cluster.spec.replicas / 2)
      then lost
      else incomplete

  decide_down-down_state :
      (o : Option MySqlInstanceStatus)
      → primary_status ss ≡ ok o
      → decide_down ss ≡ ok (down_state (primary_gone ss o))
  unfolding decide_down is_failed is_lost
  decide_down-down_state o e = rw (e, ◌>>=◌) (ground arith)

  not_gone :
      (o : Option MySqlInstanceStatus)
      → primary_gone ss o ≡ false
      → (lost_data ss ≡ false) × (pst : MySqlInstanceStatus) × (o ≡ some pst)
  unfolding primary_gone
  not_gone none h = cc
  not_gone (some pst) h = (h, pst, refl)

  down_state-Reading :
      (o : Option MySqlInstanceStatus)
      → PrimaryIs ss o
      → Reading ss (down_state (primary_gone ss o))
  down_state-Reading o at = elim (Bool-cases (primary_gone ss o)) [
    | inr up ↦ let (kept, pst, eo) = not_gone o up in rw up (kept, (pst, rw eo at at))
    | inl gone ↦
        elim (Bool-cases
          (ltb (ss.cluster.spec.replicas / 2) (count_ok_replicas ss.primary 0 ss.mysql_status))) [
            | inl many ↦ rw (gone, many) ((o, at, gone), ltb→lt _ _ many)
            | inr few ↦
                let le : count_ok_replicas ss.primary 0 ss.mysql_status
                    ≤ ss.cluster.spec.replicas / 2 =
                  ground arith in
                let le' : leb (count_ok_replicas ss.primary 0 ss.mysql_status)
                      (ss.cluster.spec.replicas / 2)
                    ≡ true =
                  ground arith in
                rw (gone, few, le') ((o, at, gone), le)
          ]
  ]

  -- One of the three states that `decide_down` knows.
  abbrev pub IsDown : ClusterState → Type 0
  IsDown failed = Unit
  IsDown lost = Unit
  IsDown incomplete = Unit
  IsDown _ = ⊥

  two_tests : (a b : Bool) → IsDown (if a then failed else if b then lost else incomplete)
  two_tests true b = tt
  two_tests false true = tt
  two_tests false false = tt

  down_state-IsDown : (gone : Bool) → IsDown (down_state gone)
  down_state-IsDown gone =
      two_tests
        (gone
          && ltb (ss.cluster.spec.replicas / 2) (count_ok_replicas ss.primary 0 ss.mysql_status))
        (gone
          && leb (count_ok_replicas ss.primary 0 ss.mysql_status) (ss.cluster.spec.replicas / 2))

  decide_down-reads :
      (st : ClusterState)
      → decide_down ss ≡ ok st
      → (o : Option MySqlInstanceStatus) × (primary_status ss ≡ ok o)
  unfolding decide_down is_failed
  decide_down-reads st e =
      let (f, ef, e1) = >>=-eq-ok (is_failed ss) _ e in
      let (o, eo, e2) = >>=-eq-ok (primary_status ss) _ ef in (o, eo)

  pub decide_down-Reading : (st : ClusterState) → decide_down ss ≡ ok st → Reading ss st
  decide_down-Reading st e =
      let (o, eo) = decide_down-reads st e in
      rw (← ok-injective (sym (decide_down-down_state o eo) ∙ e))
        (down_state-Reading o (primary_status-PrimaryIs ss o eo))

  pub decide_down-IsDown : (st : ClusterState) → decide_down ss ≡ ok st → IsDown st
  decide_down-IsDown st e =
      let (o, eo) = decide_down-reads st e in
      rw (← ok-injective (sym (decide_down-down_state o eo) ∙ e))
        (down_state-IsDown (primary_gone ss o))
