-- ===== src/Resolver/History/Noted.antt =====
-- The entry of a policy that has just been noted.
use kubestellar_workload_sta.Base.{◌≡◌, refl, Option, none, some, [], Str, str_eq, arith}
use kubestellar_workload_sta.Base.Dict.{lookup, insert, lookup-insert}
use kubestellar_workload_sta.Run.{done, Ensures}
use kubestellar_workload_sta.Api.{Kinds, StagedBindingPolicy}
use kubestellar_workload_sta.Cluster.{Cluster, Failure}
use kubestellar_workload_sta.Resolver.{PolicyData, State}
use kubestellar_workload_sta.Resolver.Ensure.{
  ensure_active_stage, delete_previous, create_active, update_status,
}
use kubestellar_workload_sta.Resolver.Condition.{attempt_condition}
use kubestellar_workload_sta.Resolver.Notes.{new_entry, note_policy}
use kubestellar_workload_sta.Resolver.Idle.{attempt_condition_unbound}

abbrev pub entry_uid : {K : Kinds} → Option (PolicyData K) → Str
entry_uid none = []
entry_uid (some d) = d.active_binding_policy_uid

module _ {K : Kinds} (C : Cluster K) (sbp : StagedBindingPolicy K) where
  -- The entry is that of a policy just noted, with some UID.
  abbrev pub IsNew : Option (PolicyData K) → Type 0
  IsNew o = o ≡ some (record (new_entry sbp) { active_binding_policy_uid = entry_uid o })

  update_status-IsNew :
      (i : _) (s : State C)
      → IsNew (lookup sbp.metadata.name s.policies)
      → Ensures
          (update_status C sbp.metadata.name i s)
          (λ e s'. IsNew (lookup sbp.metadata.name s'.policies))
  unfolding update_status
  update_status-IsNew i s h = ground arith

  create_active-IsNew :
      (s : State C)
      → IsNew (lookup sbp.metadata.name s.policies)
      → Ensures
          (create_active C sbp.metadata.name (new_entry sbp) s)
          (λ e s'. IsNew (lookup sbp.metadata.name s'.policies))
  unfolding create_active
  create_active-IsNew s h = grind (arith, lookup-insert, update_status-IsNew)

  pub ensure-IsNew :
      (s : State C)
      → IsNew (lookup sbp.metadata.name s.policies)
      → Ensures
          (ensure_active_stage C sbp.metadata.name (new_entry sbp) s)
          (λ e s'. IsNew (lookup sbp.metadata.name s'.policies))
  unfolding ensure_active_stage delete_previous
  ensure-IsNew s h = grind (arith, create_active-IsNew)

  pub attempt_condition_of_IsNew :
      (s : State C)
      → IsNew (lookup sbp.metadata.name s.policies)
      → attempt_condition C sbp.metadata.name s ≡ done tt s
  unfolding new_entry
  attempt_condition_of_IsNew s h =
      attempt_condition_unbound C sbp.metadata.name
        (record (new_entry sbp) {
          active_binding_policy_uid = entry_uid (lookup sbp.metadata.name s.policies);
        })
        s h refl

  pub note_policy-IsNew :
      (s s' : State C) (e : Option (Failure C.Error))
      → note_policy C sbp s ≡ done e s'
      → IsNew (lookup sbp.metadata.name s'.policies)
  unfolding note_policy
  note_policy-IsNew s s' e h =
      let s1 : State C = record s {
        policies = insert sbp.metadata.name (new_entry sbp) s.policies;
      } in
      let found = lookup-insert sbp.metadata.name sbp.metadata.name (new_entry sbp) s.policies in
      grind (arith, found, ensure-IsNew s1, attempt_condition_of_IsNew)
