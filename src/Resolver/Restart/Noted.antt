-- ===== src/Resolver/Restart/Noted.antt =====
-- A note of the policy as the API server stores it brings the entry in step with the stored policy.
use kubestellar_workload_sta.Base.{
  ◌≡◌, ◌⊎◌, refl, inl, inr, Option, none, some, Str, get_elem?, str_eq, arith, Option-cases,
}
use kubestellar_workload_sta.Base.Dict.{lookup, insert, lookup-insert}
use kubestellar_workload_sta.Run.{Ensures, Ensures-bind, done, pure}
use kubestellar_workload_sta.Api.{Kinds, Stage, StagedBindingPolicy}
use kubestellar_workload_sta.Cluster.{Cluster, Failure, Result-cases}
use kubestellar_workload_sta.Resolver.{PolicyData, State}
use kubestellar_workload_sta.Resolver.Ensure.{
  binding_policy, delete_previous, create_active, update_status, ensure_active_stage,
}
use kubestellar_workload_sta.Resolver.Notes.{new_entry, note_policy}
use kubestellar_workload_sta.Resolver.History.Noted.{entry_uid, note_policy-IsNew}
use kubestellar_workload_sta.Resolver.Exclusive.Noted.{note_policy-ensured}
use kubestellar_workload_sta.Resolver.Restart.{IsStore, AreNamed}
use kubestellar_workload_sta.Resolver.Restart.Stored.{with_stage, update_read}
use kubestellar_workload_sta.Resolver.Restart.Attempted.{IsInStep, new_entry-with_stage}

module _ {K : Kinds} (C : Cluster K) {stored : C.Server → Str → Option (StagedBindingPolicy K)}
    (store : IsStore C stored) (name : Str) (sbp : StagedBindingPolicy K) where
  -- The stored policy is as it was, or its status names the stage at the index.
  Names : PolicyData K → State C → Type 0
  Names d s =
      (stored s.server name ≡ some sbp)
      ⊎ ((stage : Stage K) × (get_elem? d.stages d.active_index ≡ some stage)
          × (stored s.server name ≡ some (with_stage stage sbp)))

  update_status-Names :
      (d : PolicyData K) (s : State C)
      → lookup name s.policies ≡ some d
      → stored s.server name ≡ some sbp
      → Ensures (update_status C name d.active_index s) (λ e s'. Names d s')
  unfolding update_status Names
  update_status-Names d s found at =
      let s1 = (C.get_policy name s.server).1 in
      let k = store.get_keeps name name s.server in
      elim (Result-cases (C.get_policy name s.server).0) [
        | inl (e, g) ↦ ground (arith, k)
        | inr (x, g) ↦
            let same : x ≡ sbp = ground (arith, store.got name s.server x g) in
            elim (Option-cases (get_elem? d.stages d.active_index)) [
              | inl n ↦ ground arith
              | inr (stage, n) ↦
                  elim (Option-cases (C.update_policy_status (with_stage stage x) s1).0) [
                    | inl u ↦ ground (arith, update_read C store name x stage s.server g u)
                    | inr (e, u) ↦
                        ground (arith, k, store.refused_keeps (with_stage stage x) name s1 e u)
                  ]
            ]
      ]

  create_active-Names :
      (d : PolicyData K) (s : State C)
      → stored s.server name ≡ some sbp
      → Ensures (create_active C name d s) (λ e s'. Names d s')
  unfolding create_active Names
  create_active-Names d s at = elim (Option-cases (get_elem? d.stages d.active_index)) [
    | inl e ↦ ground arith
    | inr (stage, e) ↦
        let p = binding_policy name d stage in
        let k = store.create_keeps p name s.server in
        elim (Result-cases (C.create_binding_policy p s.server).0) [
          | inl (x, q) ↦ ground (arith, k)
          | inr (uid, q) ↦
              let d' = record d { active_binding_policy_uid = uid } in
              let s1 : State C = record {
                policies = insert name d' s.policies;
                server = (C.create_binding_policy p s.server).1;
              } in
              ground (arith, k, lookup-insert name name d' s.policies, update_status-Names d' s1)
        ]
  ]

  ensure-Names :
      (d : PolicyData K) (s : State C)
      → stored s.server name ≡ some sbp
      → Ensures (ensure_active_stage C name d s) (λ e s'. Names d s')
  unfolding ensure_active_stage delete_previous Names
  ensure-Names d s at =
      Ensures-bind (λ e s'. stored s'.server name ≡ some sbp) (λ e s'. Names d s')
        (delete_previous C name d)
        (λ e. elim e [ some f ↦ pure (some f) | none ↦ create_active C name d ]) s
        (grind (arith, λ (n : Str). store.delete_keeps n name s.server))
        (elim [ none ↦ λ s' k. create_active-Names d s' k | some f ↦ λ s' k. inl k ])

module _ {K : Kinds} (C : Cluster K) {stored : C.Server → Str → Option (StagedBindingPolicy K)}
    (store : IsStore C stored) (sbp : StagedBindingPolicy K) where
  pub note_policy-IsInStep :
      (s s' : State C) (e : Option (Failure C.Error))
      → AreNamed sbp.spec.stages
      → stored s.server sbp.metadata.name ≡ some sbp
      → note_policy C sbp s ≡ done e s'
      → IsInStep C stored sbp.metadata.name s'
  unfolding new_entry Names
  note_policy-IsInStep s s' e names at h =
      let name = sbp.metadata.name in
      let d = new_entry sbp in
      let noted = record d { active_binding_policy_uid = entry_uid (lookup name s'.policies) } in
      let tracked = note_policy-IsNew C sbp s s' e h in
      let s1 : State C = record s { policies = insert name d s.policies } in
      let ended : Names C store name sbp d s' =
        ground (arith, note_policy-ensured C sbp s s' e h, ensure-Names C store name sbp d s1 at) in
      elim ended [
        | inl as_before ↦ record {
          entry = noted;
          policy = sbp;
          tracked = tracked;
          at_server = as_before;
          same_stages = refl;
          names = names;
          same_index = refl;
        }
        | inr (stage, active, written) ↦ record {
          entry = noted;
          policy = with_stage stage sbp;
          tracked = tracked;
          at_server = written;
          same_stages = refl;
          names = names;
          same_index = new_entry-with_stage sbp d.active_index stage names active;
        }
      ]
