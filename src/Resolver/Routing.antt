-- ===== src/Resolver/Routing.antt =====
-- Which policy a noted binding is taken for, by its name.
use kubestellar_workload_sta.Base.{
  ◌≡◌, none, some, false, Str, str_eq, ◌==◌, if◌then◌else◌, ◌++◌, ap, arith, codes,
}
use kubestellar_workload_sta.Base.Dict.{lookup, insert}
use kubestellar_workload_sta.Run.{done}
use kubestellar_workload_sta.Strings.{contains, split, stage_separator}
use kubestellar_workload_sta.Strings.StageName.{
  IsClean, bare_suffix, split-stage_name, split-stage_name_misread,
}
use kubestellar_workload_sta.Api.{Kinds, Stage, Binding}
use kubestellar_workload_sta.Cluster.{Cluster}
use kubestellar_workload_sta.Resolver.{PolicyData, State}
use kubestellar_workload_sta.Resolver.Ensure.{binding_policy}
use kubestellar_workload_sta.Resolver.Condition.{attempt_condition}
use kubestellar_workload_sta.Resolver.Notes.{note_binding, first_owner_uid}

module _ {K : Kinds} (C : Cluster K) (name : Str) (d : PolicyData K) (stage : Stage K)
    (binding : Binding) (s : State C) where
  -- A binding that has the name of the BindingPolicy of a tracked policy's stage and is owned by the
  -- active BindingPolicy: its spec becomes that policy's workload, and its condition is attempted. The
  -- policy's name with a dot, and the stage's name, do not contain ".stage.".
  pub note_binding-binding_policy :
      IsClean name
      → contains stage.name stage_separator ≡ false
      → binding.metadata.name ≡ (binding_policy name d stage).name
      → lookup name s.policies ≡ some d
      → d.active_binding_policy_uid ≡ first_owner_uid binding.metadata.owner_references
      → note_binding C binding s
        ≡ attempt_condition C name (record s {
          policies = insert name (record d { binding_spec = binding.spec }) s.policies;
        })
  unfolding note_binding binding_policy
  note_binding-binding_policy clean plain e h owner = ground (
    arith,
    split-stage_name name stage.name clean plain,
    ap (λ (n : Str). split n stage_separator) e,
  )

  -- A binding with the name of a BindingPolicy of a policy whose name is `name` followed by
  -- ".stage" is taken for one of the policy `name`: it is ignored if no such policy is tracked or
  -- if it is not owned by that policy's active BindingPolicy, and otherwise its spec becomes the
  -- workload of `name`, whose condition is attempted. `name` with a dot does not contain ".stage.",
  -- nor does "stage." with the stage's name.
  pub note_binding_misread :
      IsClean name
      → contains (codes "stage." ++ stage.name) stage_separator ≡ false
      → binding.metadata.name ≡ (binding_policy (name ++ bare_suffix) d stage).name
      → note_binding C binding s ≡ elim (lookup name s.policies) [
        | none ↦ done tt s
        | some other ↦
            if other.active_binding_policy_uid == first_owner_uid binding.metadata.owner_references
            then attempt_condition C name (record s {
              policies = insert name (record other { binding_spec = binding.spec }) s.policies;
            })
            else done tt s
      ]
  unfolding note_binding binding_policy
  note_binding_misread clean plain e = ground (
    arith,
    split-stage_name_misread name stage.name clean plain,
    ap (λ (n : Str). split n stage_separator) e,
  )
