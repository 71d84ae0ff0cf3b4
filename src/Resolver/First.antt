-- ===== src/Resolver/First.antt =====
-- `NoteStagedBindingPolicy` of a policy at its first stage, where the API server takes the calls.
use kubestellar_workload_sta.Base.{◌≡◌, refl, none, some, str_eq, arith, get_elem?, Str}
use kubestellar_workload_sta.Base.Dict.{lookup, insert, lookup-insert}
use kubestellar_workload_sta.Run.{done}
use kubestellar_workload_sta.Api.{Kinds, Stage, StagedBindingPolicy}
use kubestellar_workload_sta.Cluster.{Cluster, ok}
use kubestellar_workload_sta.Resolver.{PolicyData, State}
use kubestellar_workload_sta.Resolver.Ensure.{
  binding_policy, ensure_active_stage, delete_previous, create_active, update_status,
}
use kubestellar_workload_sta.Resolver.Notes.{new_entry, active_stage_index, note_policy}
use kubestellar_workload_sta.Resolver.Idle.{attempt_condition_unbound}

module _ {K : Kinds} (C : Cluster K) (sbp got : StagedBindingPolicy K) (stage : Stage K) (uid : Str)
    (s : State C) where
  -- The entry of the policy, with the BindingPolicy that was created.
  abbrev pub created_entry : PolicyData K
  created_entry = record (new_entry sbp) { active_binding_policy_uid = uid }

  -- The API server after the creation, the read of the policy, and the update of its status.
  abbrev after_create : C.Server
  after_create =
      (C.create_binding_policy (binding_policy sbp.metadata.name (new_entry sbp) stage) s.server).1

  abbrev after_get : C.Server
  after_get = (C.get_policy sbp.metadata.name after_create).1

  abbrev status_update : StagedBindingPolicy K
  status_update = record got { status = record { active_stage = stage.name } }

  abbrev created_state : State C
  created_state = record {
    policies =
        insert sbp.metadata.name created_entry
          (insert sbp.metadata.name (new_entry sbp) s.policies);
    server = (C.update_policy_status status_update after_get).1;
  }

  ensure_active_stage_created :
      active_stage_index sbp ≡ 0
      → get_elem? sbp.spec.stages 0 ≡ some stage
      → (C.create_binding_policy
          (binding_policy sbp.metadata.name (new_entry sbp) stage)
          s.server).0
        ≡ ok uid
      → (C.get_policy sbp.metadata.name after_create).0 ≡ ok got
      → (C.update_policy_status status_update after_get).0 ≡ none
      → ensure_active_stage C sbp.metadata.name
          (new_entry sbp)
          (record s { policies = insert sbp.metadata.name (new_entry sbp) s.policies })
        ≡ done none created_state
  unfolding ensure_active_stage delete_previous create_active update_status new_entry
  ensure_active_stage_created i h c g u = ground (
    arith,
    lookup-insert sbp.metadata.name sbp.metadata.name created_entry
        (insert sbp.metadata.name (new_entry sbp) s.policies),
  )

  lookup-created_state : lookup sbp.metadata.name created_state.policies ≡ some created_entry
  lookup-created_state = ground (
    arith,
    lookup-insert sbp.metadata.name sbp.metadata.name created_entry
        (insert sbp.metadata.name (new_entry sbp) s.policies),
  )

  -- A policy at its first stage, where the API server creates the stage's BindingPolicy, gives the policy
  -- and takes its status: the method returns no error, the policy is tracked at that stage with the UID of
  -- the new BindingPolicy, and its status names the stage. The stage is not left at once, since no binding
  -- has been noted.
  pub note_policy_created :
      active_stage_index sbp ≡ 0
      → get_elem? sbp.spec.stages 0 ≡ some stage
      → (C.create_binding_policy
          (binding_policy sbp.metadata.name (new_entry sbp) stage)
          s.server).0
        ≡ ok uid
      → (C.get_policy sbp.metadata.name after_create).0 ≡ ok got
      → (C.update_policy_status status_update after_get).0 ≡ none
      → (s' : State C) × (note_policy C sbp s ≡ done none s')
        × (lookup sbp.metadata.name s'.policies ≡ some created_entry)
        × (s'.server ≡ (C.update_policy_status status_update after_get).1)
  unfolding note_policy new_entry
  note_policy_created i h c g u = (
    created_state,
    ground (
      arith,
      ensure_active_stage_created i h c g u,
      attempt_condition_unbound C sbp.metadata.name created_entry created_state lookup-created_state
          refl,
    ),
    lookup-created_state,
    refl,
  )
