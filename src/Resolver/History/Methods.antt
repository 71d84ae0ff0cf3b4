-- ===== src/Resolver/History/Methods.antt =====
-- What the methods of the resolver that attempt a condition have done when they return.
use kubestellar_workload_sta.Base.{◌≡◌, ◌⊎◌, inl, inr, some, [], Str, str_eq, arith, Option-cases}
use kubestellar_workload_sta.Base.Dict.{lookup, insert}
use kubestellar_workload_sta.Run.{done}
use kubestellar_workload_sta.Strings.{split, stage_separator}
use kubestellar_workload_sta.Api.{Kinds, Binding}
use kubestellar_workload_sta.Cluster.{Cluster}
use kubestellar_workload_sta.Resolver.{PolicyData, State}
use kubestellar_workload_sta.Resolver.Condition.{attempt_condition, label_binding_policy}
use kubestellar_workload_sta.Resolver.Notes.{
  note_binding, note_combined_status, attempt_matching, keys, without_suffix, first_owner_uid,
  or_empty,
}

-- What a call that returned has done.
module _ {K : Kinds} (C : Cluster K) where
  pub note_binding-eq_done :
      (b : Binding) (s s' : State C)
      → note_binding C b s ≡ done tt s'
      → (s' ≡ s)
        ⊎ ((key : Str) × (d : PolicyData K) × (without_suffix
                (split b.metadata.name stage_separator)
              ≡ some key)
            × (lookup key s.policies ≡ some d)
            × (d.active_binding_policy_uid ≡ first_owner_uid b.metadata.owner_references)
            × (attempt_condition C key (record s {
              policies = insert key (record d { binding_spec = b.spec }) s.policies;
            })
                ≡ done tt s'))
  unfolding note_binding
  note_binding-eq_done b s s' h =
      elim (Option-cases (without_suffix (split b.metadata.name stage_separator))) [
        | inl e ↦ inl (ground arith)
        | inr (key, e) ↦ elim (Option-cases (lookup key s.policies)) [
          | inl q ↦ inl (ground arith)
          | inr (d, q) ↦
              elim (str_eq.dec d.active_binding_policy_uid
                (first_owner_uid b.metadata.owner_references)) [
                  | yes p ↦ inr (key, d, e, q, p, ground arith)
                  | no n ↦ inl (ground arith)
                ]
        ]
      ]

  pub note_combined_status-eq_done :
      (cs : C.CombinedStatus) (s s' : State C)
      → note_combined_status C cs s ≡ done tt s'
      → (s' ≡ s)
        ⊎ ((key : Str) × (without_suffix (
                split (or_empty (lookup label_binding_policy (C.status_labels cs))) stage_separator)
              ≡ some key)
            × (attempt_matching C key (C.range_names (keys C s.policies)) s ≡ done tt s'))
  unfolding note_combined_status
  note_combined_status-eq_done cs s s' h =
      let label = or_empty (lookup label_binding_policy (C.status_labels cs)) in
      elim (Option-cases (without_suffix (split label stage_separator))) [
        | inl e ↦ inl (ground arith)
        | inr (key, e) ↦ elim (str_eq.dec label []) [
          | yes p ↦ inl (ground arith)
          | no n ↦ inr (key, e, ground arith)
        ]
      ]
