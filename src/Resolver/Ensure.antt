-- ===== src/Resolver/Ensure.antt =====
-- `ensureActiveStageLocked`, `updateStagedBindingPolicyStatusLocked` and `stageUpLocked`.
use kubestellar_workload_sta.Base.{
  ℕ, ◌+◌, ◌-◌, Option, none, some, [], ◌∷◌, Str, codes, length, ltb, leb, str_eq, if◌then◌else◌,
}
use kubestellar_workload_sta.Base.Dict.{lookup, insert}
use kubestellar_workload_sta.Run.{done, panicked, nil_dereference, Action, pure, index, ◌>>=◌, ◌>>◌}
use kubestellar_workload_sta.Strings.{stage_name}
use kubestellar_workload_sta.Api.{Kinds, Stage, BindingPolicy}
use kubestellar_workload_sta.Cluster.{Cluster, ok, err, Failure, external, wrapped}
use kubestellar_workload_sta.Resolver.{PolicyData, State}

-- The object that `Create` is given.
unfoldable pub binding_policy : {K : Kinds} → Str → PolicyData K → Stage K → BindingPolicy K
binding_policy name d stage = record {
  name = stage_name name stage.name;
  owner_references =
      record {
        api_version = codes "community.kubestellar.io/v1alpha1";
        kind = codes "StagedBindingPolicy";
        name = name;
        uid = d.uid;
      }
      ∷ [];
  spec = record { downsync = d.downsync; cluster_selectors = stage.cluster_selectors };
}

module _ {K : Kinds} (C : Cluster K) where
  -- A call of a client.
  abbrev on_server : {A : Type 0} → (C.Server → A × C.Server) → Action (State C) A
  on_server call s = let (a, server) = call s.server in done a (record s { server = server })

  -- A change of the record that the entry of `name` points to.
  abbrev pub write : Str → PolicyData K → Action (State C) (Unit {0})
  write name d s = done tt (record s { policies = insert name d s.policies })

  -- `r.stagedBindingPolicies[name]`, where the pointer is followed without a test.
  abbrev pub entry : Str → Action (State C) (PolicyData K)
  entry name s = elim (lookup name s.policies) [
    | none ↦ panicked nil_dereference s
    | some d ↦ done d s
  ]

  abbrev external? : Option C.Error → Option (Failure C.Error)
  external? none = none
  external? (some e) = some (external e)

  -- `err != nil && !errors.IsNotFound(err)`
  abbrev pub delete_failure : Option C.Error → Option (Failure C.Error)
  delete_failure none = none
  delete_failure (some e) =
      if C.is_not_found e
      then none
      else some (wrapped "error deleting previous binding policy" (external e))

  unfoldable pub delete_previous : Str → PolicyData K → Action (State C) (Option (Failure C.Error))
  delete_previous name d =
      if ltb 0 d.active_index
      then (do
        previous ← index d.stages (d.active_index - 1)
        e ← on_server (C.delete_binding_policy (stage_name name previous.name))
        pure (delete_failure e))
      else pure none

  unfoldable pub update_status : Str → ℕ → Action (State C) (Option (Failure C.Error))
  update_status name active_stage = do
    got ← on_server (C.get_policy name)
    elim got [
      | err e ↦ pure (some (external e))
      | ok sbp ↦ do
        d ← entry name
        stage ← index d.stages active_stage
        e ←
            on_server (
              C.update_policy_status (record sbp { status = record { active_stage = stage.name } }))
        pure (external? e)
    ]

  unfoldable pub create_active : Str → PolicyData K → Action (State C) (Option (Failure C.Error))
  unfolding binding_policy update_status
  create_active name d = do
    stage ← index d.stages d.active_index
    echo ← on_server (C.create_binding_policy (binding_policy name d stage))
    elim echo [
      | err e ↦ pure (some (external e))
      | ok uid ↦ do
        write name (record d { active_binding_policy_uid = uid })
        update_status name d.active_index
    ]

  unfoldable pub ensure_active_stage :
      Str → PolicyData K → Action (State C) (Option (Failure C.Error))
  ensure_active_stage name d = do
    e ← delete_previous name d
    elim e [ some f ↦ pure (some f) | none ↦ create_active name d ]

  -- `sbpData.activeIndex--`; the entry is the one that was advanced
  unfoldable pub revert : Str → Action (State C) (Unit {0})
  revert name = do d ← entry name; write name (record d { active_index = d.active_index - 1 })

  unfoldable pub advance : Str → PolicyData K → Action (State C) (Unit {0})
  advance name d = do
    let d' = record d { active_index = d.active_index + 1 }
    write name d'
    e ← ensure_active_stage name d'
    elim e [ none ↦ pure tt | some _ ↦ revert name ]

  unfoldable pub stage_up : Str → Action (State C) (Unit {0})
  stage_up name s = elim (lookup name s.policies) [
    | none ↦ done tt s
    | some d ↦ if leb (length d.stages) d.active_index then done tt s else advance name d s
  ]
