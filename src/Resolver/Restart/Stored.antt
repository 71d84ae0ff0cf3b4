-- ===== src/Resolver/Restart/Stored.antt =====
-- What the calls of the resolver do to the StagedBindingPolicies that the API server stores.
use mathlib.Core.Path.{subst}
use kubestellar_workload_sta.Base.{
  ℕ, ◌≡◌, ◌≢◌, inl, inr, ◌∙◌, sym, Option, none, some, Str, get_elem?, str_eq, arith, Option-cases,
}
use kubestellar_workload_sta.Base.Dict.{insert}
use kubestellar_workload_sta.Run.{Ensures, Ensures-bind, Ensures-mono, pure}
use kubestellar_workload_sta.Strings.{stage_name}
use kubestellar_workload_sta.Api.{Kinds, Stage, StagedBindingPolicy}
use kubestellar_workload_sta.Cluster.{Cluster, ok, Result-cases}
use kubestellar_workload_sta.Resolver.{PolicyData, State}
use kubestellar_workload_sta.Resolver.Ensure.{
  binding_policy, delete_previous, create_active, update_status, ensure_active_stage,
}
use kubestellar_workload_sta.Resolver.Staging.{Outcome, kept, moved, torn, rollout}
use kubestellar_workload_sta.Resolver.Restart.{IsStore}

module _ {K : Kinds} where
  abbrev pub with_stage : Stage K → StagedBindingPolicy K → StagedBindingPolicy K
  with_stage stage sbp = record sbp { status = record { active_stage = stage.name } }

  -- The stored policy after the calls of a step.
  abbrev pub settle_stored : Outcome → Stage K → StagedBindingPolicy K → StagedBindingPolicy K
  settle_stored kept next sbp = sbp
  settle_stored (moved uid) next sbp = with_stage next sbp
  settle_stored (torn uid) next sbp = sbp

module _ {K : Kinds} (C : Cluster K) {stored : C.Server → Str → Option (StagedBindingPolicy K)}
    (store : IsStore C stored) (name : Str) where
  -- The update of a status, of the object that has just been read.
  pub update_read :
      (sbp : StagedBindingPolicy K) (stage : Stage K) (server : C.Server)
      → (C.get_policy name server).0 ≡ ok sbp
      → (C.update_policy_status (with_stage stage sbp) (C.get_policy name server).1).0 ≡ none
      → stored (C.update_policy_status (with_stage stage sbp) (C.get_policy name server).1).1 name
        ≡ some (with_stage stage sbp)
  update_read sbp stage server g u =
      let at = store.got name server sbp g in
      let is = store.named name server sbp at in
      let s1 = (C.get_policy name server).1 in
      let at1 : stored s1 name ≡ some sbp = store.get_keeps name name server ∙ at in
      let at2 = subst (λ m. stored s1 m ≡ some sbp) (sym is) at1 in
      let s2 = (C.update_policy_status (with_stage stage sbp) s1).1 in
      subst (λ m. stored s2 m ≡ some (with_stage stage sbp)) is
        (store.updated (with_stage stage sbp) sbp s1 at2 u)

  pub rollout-stored :
      (d : PolicyData K) (previous next : Stage K) (sbp : StagedBindingPolicy K) (server : C.Server)
      → stored server name ≡ some sbp
      → stored (rollout C name d previous next server).1 name
        ≡ some (settle_stored (rollout C name d previous next server).0 next sbp)
  unfolding rollout
  rollout-stored d previous next sbp server at =
      let n = stage_name name previous.name in
      let s1 = (C.delete_binding_policy n server).1 in
      let p = binding_policy name d next in
      let s2 = (C.create_binding_policy p s1).1 in
      let s3 = (C.get_policy name s2).1 in
      let k1 = store.delete_keeps n name server in
      let k2 = store.create_keeps p name s1 in
      let k3 = store.get_keeps name name s2 in
      elim (Result-cases (C.create_binding_policy p s1).0) [
        | inl (e, q) ↦ ground (arith, k1, k2)
        | inr (uid, q) ↦ elim (Result-cases (C.get_policy name s2).0) [
          | inl (e, g) ↦ ground (arith, k1, k2, k3)
          | inr (x, g) ↦
              let same : x ≡ sbp = ground (arith, store.got name s2 x g, k1, k2) in
              elim (Option-cases (C.update_policy_status (with_stage next x) s3).0) [
                | inl u ↦ ground (arith, k1, k2, k3, update_read x next s2 g u)
                | inr (e, u) ↦
                    ground (arith, k1, k2, k3, store.refused_keeps (with_stage next x) name s3 e u)
              ]
        ]
      ]

module _ {K : Kinds} (C : Cluster K) {stored : C.Server → Str → Option (StagedBindingPolicy K)}
    (store : IsStore C stored) (name key : Str) (other : name ≢ key) where
  -- The status of another policy, of the object that has just been read.
  update_other :
      (sbp : StagedBindingPolicy K) (stage : Stage K) (server : C.Server)
      → (C.get_policy key server).0 ≡ ok sbp
      → stored (C.update_policy_status (with_stage stage sbp) (C.get_policy key server).1).1 name
        ≡ stored server name
  update_other sbp stage server g =
      let is = store.named key server sbp (store.got key server sbp g) in
      store.update_keeps (with_stage stage sbp) name (C.get_policy key server).1
        (λ e. other (e ∙ is))
      ∙ store.get_keeps key name server

  pub rollout_other :
      (d : PolicyData K) (previous next : Stage K) (server : C.Server)
      → stored (rollout C key d previous next server).1 name ≡ stored server name
  unfolding rollout
  rollout_other d previous next server =
      let n = stage_name key previous.name in
      let s1 = (C.delete_binding_policy n server).1 in
      let p = binding_policy key d next in
      let s2 = (C.create_binding_policy p s1).1 in
      let k1 = store.delete_keeps n name server in
      let k2 = store.create_keeps p name s1 in
      let k3 = store.get_keeps key name s2 in
      elim (Result-cases (C.create_binding_policy p s1).0) [
        | inl (e, q) ↦ ground (arith, k1, k2)
        | inr (uid, q) ↦ elim (Result-cases (C.get_policy key s2).0) [
          | inl (e, g) ↦ ground (arith, k1, k2, k3)
          | inr (x, g) ↦ ground (arith, k1, k2, k3, update_other x next s2 g)
        ]
      ]

  update_status_other :
      (i : ℕ) (s : State C)
      → Ensures (update_status C key i s) (λ e s'. stored s'.server name ≡ stored s.server name)
  unfolding update_status
  update_status_other i s = elim (Result-cases (C.get_policy key s.server).0) [
    | inl (e, g) ↦ ground (arith, store.get_keeps key name s.server)
    | inr (x, g) ↦ grind (
      arith,
      store.get_keeps key name s.server,
      λ (stage : Stage K). update_other x stage s.server g,
    )
  ]

  delete_previous_other :
      (d : PolicyData K) (s : State C)
      → Ensures (delete_previous C key d s) (λ e s'. stored s'.server name ≡ stored s.server name)
  unfolding delete_previous
  delete_previous_other d s = grind (arith, λ (n : Str). store.delete_keeps n name s.server)

  create_active_other :
      (d : PolicyData K) (s : State C)
      → Ensures (create_active C key d s) (λ e s'. stored s'.server name ≡ stored s.server name)
  unfolding create_active
  create_active_other d s = elim (Option-cases (get_elem? d.stages d.active_index)) [
    | inl e ↦ ground arith
    | inr (stage, e) ↦
        let p = binding_policy key d stage in
        let kept_by_create = store.create_keeps p name s.server in
        elim (Result-cases (C.create_binding_policy p s.server).0) [
          | inl (x, q) ↦ ground (arith, kept_by_create)
          | inr (uid, q) ↦
              let s1 : State C = record {
                policies = insert key (record d { active_binding_policy_uid = uid }) s.policies;
                server = (C.create_binding_policy p s.server).1;
              } in
              ground (arith, kept_by_create, update_status_other d.active_index s1)
        ]
  ]

  -- Ensuring another policy's stage leaves the stored policy as it was.
  pub ensure_other :
      (d : PolicyData K) (s : State C)
      → Ensures
          (ensure_active_stage C key d s)
          (λ e s'. stored s'.server name ≡ stored s.server name)
  unfolding ensure_active_stage
  ensure_other d s =
      Ensures-bind (λ e s'. stored s'.server name ≡ stored s.server name)
        (λ e s'. stored s'.server name ≡ stored s.server name) (delete_previous C key d)
        (λ e. elim e [ some f ↦ pure (some f) | none ↦ create_active C key d ]) s
        (delete_previous_other d s)
        (elim [
          | none ↦ λ s' k.
              Ensures-mono (create_active C key d s') (create_active_other d s') (λ e t l. l ∙ k)
          | some f ↦ λ s' k. k
        ])
