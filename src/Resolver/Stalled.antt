-- ===== src/Resolver/Stalled.antt =====
-- A policy whose BindingPolicy the API server refuses to create: no method gets its rollout going.
use kubestellar_workload_sta.Base.{
  ◌≡◌, ◌≢◌, refl, Option, none, some, [], Str, str_eq, arith, get_elem?,
}
use kubestellar_workload_sta.Base.Dict.{lookup, insert, lookup-insert, lookup-erase}
use kubestellar_workload_sta.Run.{done}
use kubestellar_workload_sta.Api.{Kinds, Stage, StagedBindingPolicy, Binding}
use kubestellar_workload_sta.Cluster.{Cluster, Failure, err, external}
use kubestellar_workload_sta.Resolver.{PolicyData, State}
use kubestellar_workload_sta.Resolver.Ensure.{
  binding_policy, ensure_active_stage, delete_previous, create_active,
}
use kubestellar_workload_sta.Resolver.Condition.{attempt_condition}
use kubestellar_workload_sta.Resolver.Notes.{
  note_policy, note_binding, note_combined_status, delete_policy, new_entry, first_owner_uid,
}
use kubestellar_workload_sta.Resolver.Idle.{IsIdle, attempt_condition_unbound}
use kubestellar_workload_sta.Resolver.Frame.{lookup-note_policy, lookup-attempt_condition}
use kubestellar_workload_sta.Resolver.Keeping.{note_binding-keeps, note_combined_status-keeps}

module _ {K : Kinds} (C : Cluster K) where
  -- The previous stage's BindingPolicy, if there is one, can be deleted, but that of the active stage cannot
  -- be created.
  pub record IsRefused (sbp : StagedBindingPolicy K) (s : State C) : Type 0 where
    pub stage : Stage K
    pub at : State C
    pub error : C.Error
    pub active : get_elem? sbp.spec.stages (new_entry sbp).active_index ≡ some stage
    pub deleted :
        delete_previous C sbp.metadata.name
          (new_entry sbp)
          (record s { policies = insert sbp.metadata.name (new_entry sbp) s.policies })
        ≡ done none at
    pub refused :
        (C.create_binding_policy
          (binding_policy sbp.metadata.name (new_entry sbp) stage)
          at.server).0
        ≡ err error

  note_policy_of_IsRefused :
      (sbp : StagedBindingPolicy K) (s s' : State C) (e : Option (Failure C.Error))
      → (r : IsRefused sbp s) → note_policy C sbp s ≡ done e s'
      → (e ≡ some (external r.error))
        × (lookup sbp.metadata.name s'.policies ≡ some (new_entry sbp))
  unfolding note_policy ensure_active_stage create_active new_entry delete_previous
  note_policy_of_IsRefused sbp s s' e r h =
      let found = lookup-insert sbp.metadata.name sbp.metadata.name (new_entry sbp) s.policies in
      let active = r.active in
      let deleted = r.deleted in
      let refused = r.refused in ground (arith, found, active, deleted, refused)

module _ {K : Kinds} (C : Cluster K) (name : Str) where
  -- Any step of the resolver, but for a deletion of the policy, a note of it whose BindingPolicy the server
  -- creates, and a binding whose owner has no UID.
  pub data Stall : State C → State C → Type 0 where
    note_refused :
        {s s' : State C} (sbp : StagedBindingPolicy K) (e : Option (Failure C.Error))
        → name ≡ sbp.metadata.name
        → IsRefused C sbp s
        → note_policy C sbp s ≡ done e s'
        → Stall s s'
    other_policy :
        {s s' : State C} (sbp : StagedBindingPolicy K) (e : Option (Failure C.Error))
        → name ≢ sbp.metadata.name
        → note_policy C sbp s ≡ done e s'
        → Stall s s'
    other_deletion :
        {s s' : State C} (key : Str) → name ≢ key → delete_policy C key s ≡ done tt s' → Stall s s'
    owned_binding :
        {s s' : State C} (b : Binding)
        → first_owner_uid b.metadata.owner_references ≢ []
        → note_binding C b s ≡ done tt s'
        → Stall s s'
    any_combined_status :
        {s s' : State C} (cs : C.CombinedStatus)
        → note_combined_status C cs s ≡ done tt s'
        → Stall s s'
    elsewhere : {s s' : State C} → s'.policies ≡ s.policies → Stall s s'

  pub data Stalls (s : State C) : State C → Type 0 where
    still : Stalls s s
    stalled : {t u : State C} → Stalls s t → Stall t u → Stalls s u

  abbrev pub EntryIsIdle : State C → Type 0
  EntryIsIdle s = (d : PolicyData K) × (lookup name s.policies ≡ some d) × IsIdle d

  attempt_condition_idle :
      (key : Str) (s s' : State C)
      → attempt_condition C key s ≡ done tt s'
      → EntryIsIdle s
      → EntryIsIdle s'
  attempt_condition_idle key s s' h (d, found, idle) = elim (str_eq.dec name key) [
    | yes p ↦
        let own : attempt_condition C name s ≡ done tt s' = rw p h in
        let none_done = attempt_condition_unbound C name d s found idle.unbound in
        let same : s' ≡ s = ground arith in rw same (d, found, idle)
    | no n ↦ (d, ground (arith, lookup-attempt_condition C name key s n), idle)
  ]

  write_binding_idle :
      (b : Binding)
      → first_owner_uid b.metadata.owner_references ≢ []
      → (key : Str) (x : PolicyData K) (s : State C) → lookup key s.policies ≡ some x
      → x.active_binding_policy_uid ≡ first_owner_uid b.metadata.owner_references
      → EntryIsIdle s
      → EntryIsIdle
          (record s { policies = insert key (record x { binding_spec = b.spec }) s.policies })
  write_binding_idle b owned key x s found_x same_uid (d, found, idle) =
      elim (str_eq.dec name key) [
        | yes p ↦
            let no_uid = idle.no_uid in
            let is_x : x ≡ d = ground arith in absurd (owned (ground arith))
        | no n ↦
            let written = lookup-insert name key (record x { binding_spec = b.spec }) s.policies in
            (d, ground (arith, written), idle)
      ]

  Stall-idle : {s s' : State C} → Stall s s' → EntryIsIdle s → EntryIsIdle s'
  unfolding delete_policy new_entry
  Stall-idle {s} {s'} (note_refused sbp e p r h) i =
      let found = (note_policy_of_IsRefused C sbp s s' e r h).1 in
      (new_entry sbp, rw p found, record { no_uid = refl; unbound = refl })
  Stall-idle {s} (other_policy sbp e n h) (d, found, idle) =
      (d, ground (arith, lookup-note_policy C name sbp s n), idle)
  Stall-idle {s} (other_deletion key n h) (d, found, idle) =
      (d, ground (arith, lookup-erase name key s.policies), idle)
  Stall-idle {s} {s'} (owned_binding b owned h) i =
      note_binding-keeps C EntryIsIdle attempt_condition_idle b (write_binding_idle b owned) s s' h
        i
  Stall-idle {s} {s'} (any_combined_status cs h) i =
      note_combined_status-keeps C EntryIsIdle attempt_condition_idle cs s s' h i
  Stall-idle (elsewhere e) (d, found, idle) = (d, rw e found, idle)

  Stalls-idle : {s s' : State C} → Stalls s s' → EntryIsIdle s → EntryIsIdle s'
  Stalls-idle still i = i
  Stalls-idle (stalled p st) i = Stall-idle st (Stalls-idle p i)

module _ {K : Kinds} (C : Cluster K) where
  pub refusal_lasts :
      (sbp : StagedBindingPolicy K) (s noted s' : State C) (e : Option (Failure C.Error))
      → (r : IsRefused C sbp s) → note_policy C sbp s ≡ done e noted
      → Stalls C sbp.metadata.name noted s'
      → (e ≡ some (external r.error))
        × ((d : PolicyData K) × (lookup sbp.metadata.name s'.policies ≡ some d)
            × IsIdle d
            × (attempt_condition C sbp.metadata.name s' ≡ done tt s'))
  unfolding new_entry
  refusal_lasts sbp s noted s' e r h p =
      let (error, found) = note_policy_of_IsRefused C sbp s noted e r h in
      let (d, found', idle) =
        Stalls-idle C sbp.metadata.name p
          (new_entry sbp, found, record { no_uid = refl; unbound = refl }) in
      (
        error,
        (d, found', idle, attempt_condition_unbound C sbp.metadata.name d s' found' idle.unbound),
      )
