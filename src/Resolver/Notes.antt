-- ===== src/Resolver/Notes.antt =====
-- The four methods of the `Resolver` interface.
use kubestellar_workload_sta.Base.{
  ℕ, suc, Option, none, some, List, [], ◌∷◌, map, Str, str_eq, ◌==◌, if◌then◌else◌,
}
use kubestellar_workload_sta.Base.Dict.{Dict, lookup, erase}
use kubestellar_workload_sta.Run.{done, Action, pure, ◌>>=◌, ◌>>◌}
use kubestellar_workload_sta.Strings.{split, stage_separator}
use kubestellar_workload_sta.Api.{
  Kinds, Stage, StagedBindingPolicy, Binding, BindingSpec, OwnerReference,
}
use kubestellar_workload_sta.Cluster.{Cluster, Failure}
use kubestellar_workload_sta.Resolver.{PolicyData, State}
use kubestellar_workload_sta.Resolver.Ensure.{write, ensure_active_stage}
use kubestellar_workload_sta.Resolver.Condition.{attempt_condition, label_binding_policy}

-- The loop over the stages: the index of the first with the name, and 0 if there is none.
unfoldable pub find_stage : {K : Kinds} → Str → ℕ → List (Stage K) → ℕ
find_stage name i [] = 0
find_stage name i (stage ∷ stages) =
    let rest = find_stage name (suc i) stages in if stage.name == name then i else rest

unfoldable pub active_stage_index : {K : Kinds} → StagedBindingPolicy K → ℕ
unfolding find_stage
active_stage_index sbp =
    if sbp.status.active_stage == []
    then 0
    else find_stage sbp.status.active_stage 0 sbp.spec.stages

-- The zero value of a BindingSpec.
abbrev pub no_binding : BindingSpec
no_binding = record { workload = record { cluster_scope = []; namespace_scope = [] } }

unfoldable pub new_entry : {K : Kinds} → StagedBindingPolicy K → PolicyData K
unfolding active_stage_index
new_entry sbp = record {
  uid = sbp.metadata.uid;
  downsync = sbp.spec.downsync;
  stages = sbp.spec.stages;
  active_index = active_stage_index sbp;
  active_binding_policy_uid = [];
  binding_spec = no_binding;
}

abbrev pub first_owner_uid : List OwnerReference → Str
first_owner_uid [] = []
first_owner_uid (owner ∷ owners) = owner.uid

-- The name before the suffix, if the name has exactly one separator.
abbrev pub without_suffix : List Str → Option Str
without_suffix (sbp ∷ stage ∷ []) = some sbp
without_suffix _ = none

-- A missing label reads as "".
abbrev pub or_empty : Option Str → Str
or_empty none = []
or_empty (some s) = s

module _ {K : Kinds} (C : Cluster K) where
  unfoldable pub note_policy : StagedBindingPolicy K → Action (State C) (Option (Failure C.Error))
  note_policy sbp = do
    write C sbp.metadata.name (new_entry sbp)
    e ← ensure_active_stage C sbp.metadata.name (new_entry sbp)
    elim e [ some f ↦ pure (some f) | none ↦ do attempt_condition C sbp.metadata.name; pure none ]

  unfoldable pub delete_policy : Str → Action (State C) (Unit {0})
  delete_policy name s = done tt (record s { policies = erase name s.policies })

  abbrev note_binding_for : Str → Binding → Action (State C) (Unit {0})
  note_binding_for name binding s = elim (lookup name s.policies) [
    | none ↦ done tt s
    | some d ↦
        if d.active_binding_policy_uid == first_owner_uid binding.metadata.owner_references
        then (do write C name (record d { binding_spec = binding.spec }); attempt_condition C name)
            s
        else done tt s
  ]

  unfoldable pub note_binding : Binding → Action (State C) (Unit {0})
  note_binding binding s = elim (without_suffix (split binding.metadata.name stage_separator)) [
    | none ↦ done tt s
    | some name ↦ note_binding_for name binding s
  ]

  -- The loop over the keys of the map, in the order of `range`.
  unfoldable pub attempt_matching : Str → List Str → Action (State C) (Unit {0})
  attempt_matching name [] s = done tt s
  attempt_matching name (key ∷ keys) s =
      (do (if key == name then attempt_condition C key else pure tt); attempt_matching name keys) s

  abbrev pub keys : Dict Str (PolicyData K) → List Str
  keys = map (λ (k, _). k)

  unfoldable pub note_combined_status : C.CombinedStatus → Action (State C) (Unit {0})
  note_combined_status cs s =
      let label = or_empty (lookup label_binding_policy (C.status_labels cs)) in
      if label == [] then done tt s else elim (without_suffix (split label stage_separator)) [
        | none ↦ done tt s
        | some name ↦ attempt_matching name (C.range_names (keys s.policies)) s
      ]
