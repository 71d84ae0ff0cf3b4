-- ===== src/Resolver/Restart/Ensured.antt =====
-- What has been created when `ensureActiveStageLocked` returns no error.
use kubestellar_workload_sta.Base.{
  ◌-◌, ◌≡◌, ◌⊎◌, refl, none, some, Option, Str, str_eq, arith, inl, inr, get_elem?, Option-cases,
  ltb, if◌then◌else◌,
}
use kubestellar_workload_sta.Base.Dict.{lookup, insert, lookup-insert}
use kubestellar_workload_sta.Run.{done}
use kubestellar_workload_sta.Strings.{stage_name}
use kubestellar_workload_sta.Api.{Kinds, Stage, StagedBindingPolicy}
use kubestellar_workload_sta.Cluster.{Cluster, Failure, ok, Result-cases}
use kubestellar_workload_sta.Resolver.{PolicyData, State}
use kubestellar_workload_sta.Resolver.Ensure.{
  binding_policy, ensure_active_stage, delete_previous, create_active, update_status,
}
use kubestellar_workload_sta.Resolver.Notes.{new_entry, note_policy}
use kubestellar_workload_sta.Resolver.Exclusive.Noted.{note_policy-ensured}

module _ {K : Kinds} (C : Cluster K) (name : Str) (d : PolicyData K) where
  -- The API server once the previous stage's BindingPolicy has been deleted, if there is a previous stage.
  abbrev pub after_deletion : C.Server → C.Server
  after_deletion server =
      if ltb 0 d.active_index
      then elim (get_elem? d.stages (d.active_index - 1)) [
        | none ↦ server
        | some previous ↦ (C.delete_binding_policy (stage_name name previous.name) server).1
      ]
      else server

  -- The BindingPolicy of the active stage was created, and the entry has its UID.
  abbrev pub HasCreated : C.Server → State C → Type 0
  HasCreated server s' =
      (stage : Stage K) × (uid : Str) × (get_elem? d.stages d.active_index ≡ some stage)
      × ((C.create_binding_policy (binding_policy name d stage) server).0 ≡ ok uid)
      × (lookup name s'.policies ≡ some (record d { active_binding_policy_uid = uid }))

  create_active-HasCreated :
      (s s' : State C) → create_active C name d s ≡ done none s' → HasCreated s.server s'
  unfolding create_active update_status
  create_active-HasCreated s s' h = elim (Option-cases (get_elem? d.stages d.active_index)) [
    | inl e ↦ absurd (ground arith)
    | inr (stage, e) ↦
        let (echo, server) = C.create_binding_policy (binding_policy name d stage) s.server in
        elim (Result-cases (C.create_binding_policy (binding_policy name d stage) s.server).0) [
          | inl (x, q) ↦ absurd (ground arith)
          | inr (uid, q) ↦
              let d' = record d { active_binding_policy_uid = uid } in
              (stage, uid, e, q, ground (arith, lookup-insert name name d' s.policies))
        ]
  ]

  pub ensure_active_stage-HasCreated :
      (s s' : State C)
      → ensure_active_stage C name d s ≡ done none s'
      → HasCreated (after_deletion s.server) s'
  unfolding ensure_active_stage delete_previous
  ensure_active_stage-HasCreated s s' h =
      let s1 : State C = record s { server = after_deletion s.server } in
      create_active-HasCreated s1 s' (ground arith)

module _ {K : Kinds} (C : Cluster K) where
  -- A note of a policy returns an error, or it has created the BindingPolicy of the stage that it makes active.
  pub note_policy-HasCreated :
      (sbp : StagedBindingPolicy K) (e : Option (Failure C.Error)) (s s' : State C)
      → note_policy C sbp s ≡ done e s'
      → ((f : Failure C.Error) × (e ≡ some f))
        ⊎ HasCreated C sbp.metadata.name
            (new_entry sbp)
            (after_deletion C sbp.metadata.name (new_entry sbp) s.server)
            s'
  note_policy-HasCreated sbp none s s' h = inr (
      ensure_active_stage-HasCreated C sbp.metadata.name (new_entry sbp)
        (record s { policies = insert sbp.metadata.name (new_entry sbp) s.policies }) s'
        (note_policy-ensured C sbp s s' none h))
  note_policy-HasCreated sbp (some f) s s' h = inl (f, refl)
