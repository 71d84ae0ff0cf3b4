-- ===== src/Resolver/Staging.antt =====
-- What one step to the next stage does: the calls of the API server in their order, and the entry
-- that is left after each way in which they can end.
use kubestellar_workload_sta.Base.{
  ◌+◌, ◌≡◌, refl, none, some, Str, length, str_eq, arith, get_elem?, lt_of_get_elem?,
  get_elem?-none,
}
use kubestellar_workload_sta.Base.Dict.{lookup, insert, lookup-insert, insert-insert, insert-lookup}
use kubestellar_workload_sta.Run.{done, panicked, index_out_of_range}
use kubestellar_workload_sta.Strings.{stage_name}
use kubestellar_workload_sta.Api.{Kinds, Stage}
use kubestellar_workload_sta.Cluster.{Cluster, ok, err}
use kubestellar_workload_sta.Resolver.{PolicyData, State}
use kubestellar_workload_sta.Resolver.Ensure.{
  binding_policy, delete_failure, stage_up, advance, ensure_active_stage, delete_previous,
  create_active, update_status, revert,
}

-- How a step to the next stage ends: nothing is created, or the new BindingPolicy exists under a UID
-- and the status has been updated, or it exists and the status has not been updated.
pub data Outcome : Type 0 where
  kept : Outcome
  moved : Str → Outcome
  torn : Str → Outcome

module _ {K : Kinds} where
  -- The entry that each outcome leaves.
  abbrev pub settle : Outcome → PolicyData K → PolicyData K
  settle kept d = d
  settle (moved uid) d = record d {
    active_index = d.active_index + 1;
    active_binding_policy_uid = uid;
  }
  settle (torn uid) d = record d { active_binding_policy_uid = uid }

module _ {K : Kinds} (C : Cluster K) where
  -- The calls of the API server alone.
  unfoldable pub rollout : Str → PolicyData K → Stage K → Stage K → C.Server → Outcome × C.Server
  rollout name d previous next server =
      let (e, s1) = C.delete_binding_policy (stage_name name previous.name) server in
      elim (delete_failure C e) [
        | some _ ↦ (kept, s1)
        | none ↦
            let (echo, s2) = C.create_binding_policy (binding_policy name d next) s1 in
            elim echo [
              | err _ ↦ (kept, s2)
              | ok uid ↦
                  let (got, s3) = C.get_policy name s2 in
                  elim got [
                    | err _ ↦ (torn uid, s3)
                    | ok sbp ↦
                        let updated = record sbp { status = record { active_stage = next.name } } in
                        let (failed, s4) = C.update_policy_status updated s3 in
                        elim failed [ none ↦ (moved uid, s4) | some _ ↦ (torn uid, s4) ]
                  ]
            ]
      ]

module _ {K : Kinds} (C : Cluster K) (name : Str) (d : PolicyData K) (previous next : Stage K)
    (s : State C) where
  advance-rollout :
      lookup name s.policies ≡ some d
      → get_elem? d.stages d.active_index ≡ some previous
      → get_elem? d.stages (d.active_index + 1) ≡ some next
      → advance C name d s ≡ (
          let (outcome, server) = rollout C name d previous next s.server in
          done tt
            (record { policies = insert name (settle outcome d) s.policies; server = server }))
  unfolding rollout advance ensure_active_stage delete_previous create_active revert binding_policy
      update_status
  advance-rollout h p n =
      let d' = record d { active_index = d.active_index + 1 } in
      let ps = insert name d' s.policies in
      grind (
        arith,
        lookup-insert name name d' s.policies,
        insert-lookup name d s.policies,
        insert-insert name d' d s.policies,
        λ (uid : Str). lookup-insert name name (record d' { active_binding_policy_uid = uid }) ps,
        λ (uid : Str).
            insert-insert name d' (record d' { active_binding_policy_uid = uid }) s.policies,
        λ (uid : Str).
            insert-insert name (record d' { active_binding_policy_uid = uid })
              (record d { active_binding_policy_uid = uid }) ps,
        λ (uid : Str).
            insert-insert name d' (record d { active_binding_policy_uid = uid }) s.policies,
      )

  -- A tracked policy with a stage after its active one: stage-up makes the calls of `rollout`, and
  -- settles the entry of the policy by their outcome. No other entry changes.
  pub stage_up-rollout :
      lookup name s.policies ≡ some d
      → get_elem? d.stages d.active_index ≡ some previous
      → get_elem? d.stages (d.active_index + 1) ≡ some next
      → stage_up C name s ≡ (
          let (outcome, server) = rollout C name d previous next s.server in
          done tt
            (record { policies = insert name (settle outcome d) s.policies; server = server }))
  unfolding stage_up
  stage_up-rollout h p n =
      rw (← advance-rollout h p n) (ground (arith, lt_of_get_elem? d.stages d.active_index p))

module _ {K : Kinds} (C : Cluster K) (name : Str) (d : PolicyData K) (last : Stage K)
    (s : State C) where
  -- A tracked policy at its last stage: if the last stage's BindingPolicy is deleted or was not
  -- there, stage-up panics with an index out of range. The deletion has been made by then.
  pub stage_up_last :
      lookup name s.policies ≡ some d
      → get_elem? d.stages d.active_index ≡ some last
      → length d.stages ≡ d.active_index + 1
      → delete_failure C (C.delete_binding_policy (stage_name name last.name) s.server).0 ≡ none
      → (s' : State C) × (stage_up C name s ≡ panicked index_out_of_range s')
        × (s'.server ≡ (C.delete_binding_policy (stage_name name last.name) s.server).1)
  unfolding stage_up advance ensure_active_stage delete_previous create_active
  stage_up_last h p n e = (
    record {
      policies = insert name (record d { active_index = d.active_index + 1 }) s.policies;
      server = (C.delete_binding_policy (stage_name name last.name) s.server).1;
    },
    ground (arith, get_elem?-none d.stages (d.active_index + 1)),
    refl,
  )
