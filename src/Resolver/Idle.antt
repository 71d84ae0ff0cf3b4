-- ===== src/Resolver/Idle.antt =====
-- An entry that has no BindingPolicy: what `NoteStagedBindingPolicy` leaves where it returns an error.
use kubestellar_workload_sta.Base.{
  ◌≡◌, ◌≢◌, refl, Option, some, List, [], ◌∷◌, Str, str_eq, arith, get_elem?-some,
}
use kubestellar_workload_sta.Base.Dict.{lookup}
use kubestellar_workload_sta.Run.{done}
use kubestellar_workload_sta.Strings.{split, stage_separator}
use kubestellar_workload_sta.Api.{Kinds, Binding, Expression}
use kubestellar_workload_sta.Cluster.{Cluster}
use kubestellar_workload_sta.Resolver.{PolicyData, State}
use kubestellar_workload_sta.Resolver.Filter.{filter_workload}
use kubestellar_workload_sta.Resolver.Condition.{
  attempt_condition, attempt_stage, label_binding_policy,
}
use kubestellar_workload_sta.Resolver.Notes.{
  note_binding, note_combined_status, attempt_matching, first_owner_uid, without_suffix, or_empty,
  keys, no_binding,
}

-- No BindingPolicy is active and no binding has been noted.
pub record IsIdle {K : Kinds} (d : PolicyData K) : Type 0 where
  pub no_uid : d.active_binding_policy_uid ≡ []
  pub unbound : d.binding_spec ≡ no_binding

module _ {K : Kinds} (C : Cluster K) where
  filter_workload-no_binding :
      (e : Option Expression) → filter_workload C no_binding.workload e ≡ []
  unfolding filter_workload
  filter_workload-no_binding e = refl

  pub attempt_condition_unbound :
      (name : Str) (d : PolicyData K) (s : State C)
      → lookup name s.policies ≡ some d
      → d.binding_spec ≡ no_binding
      → attempt_condition C name s ≡ done tt s
  unfolding attempt_condition attempt_stage
  attempt_condition_unbound name d s h unbound =
      grind (arith, filter_workload-no_binding, get_elem?-some d.stages d.active_index)

  module _ (name : Str) (d : PolicyData K) (s : State C) (h : lookup name s.policies ≡ some d)
      (idle : IsIdle d) where
    attempt_condition_of_IsIdle : attempt_condition C name s ≡ done tt s
    attempt_condition_of_IsIdle = attempt_condition_unbound name d s h idle.unbound

    attempt_matching_of_IsIdle : (ks : List Str) → attempt_matching C name ks s ≡ done tt s
    unfolding attempt_matching
    attempt_matching_of_IsIdle [] = refl
    attempt_matching_of_IsIdle (k ∷ ks) =
        ground (arith, attempt_condition_of_IsIdle, attempt_matching_of_IsIdle ks)

    -- An idle entry stays as it is and the API server is not called, whatever binding with an owner is
    -- noted for it. The owner's UID is not empty.
    note_binding_of_IsIdle :
        (binding : Binding)
        → without_suffix (split binding.metadata.name stage_separator) ≡ some name
        → first_owner_uid binding.metadata.owner_references ≢ []
        → note_binding C binding s ≡ done tt s
    unfolding note_binding
    note_binding_of_IsIdle binding e owned = ground (arith, idle.no_uid)

    -- An idle entry stays as it is and the API server is not called, whatever combined status is noted
    -- for it.
    note_combined_status_of_IsIdle :
        (cs : C.CombinedStatus)
        → without_suffix
            (split (or_empty (lookup label_binding_policy (C.status_labels cs))) stage_separator)
          ≡ some name
        → note_combined_status C cs s ≡ done tt s
    unfolding note_combined_status
    note_combined_status_of_IsIdle cs e =
        ground (arith, attempt_matching_of_IsIdle (C.range_names (keys C s.policies)))
