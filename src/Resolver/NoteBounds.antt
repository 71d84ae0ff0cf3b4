-- ===== src/Resolver/NoteBounds.antt =====
-- Every method of the resolver keeps the active index of each tracked policy in range.
use kubestellar_workload_sta.Base.{
  ℕ, suc, ◌+◌, ◌≤◌, ◌<◌, ◌≡◌, ◌≢◌, none, some, Str, length, str_eq, ◌==◌, arith, lt_of_get_elem?,
  if◌then◌else◌, List, [], ◌∷◌,
}
use kubestellar_workload_sta.Base.Dict.{lookup, insert, lookup-insert, lookup-erase}
use kubestellar_workload_sta.Run.{Ensures, Ensures-bind, pure, ◌>>◌}
use kubestellar_workload_sta.Api.{Kinds, StagedBindingPolicy, Binding, Stage}
use kubestellar_workload_sta.Cluster.{Cluster}
use kubestellar_workload_sta.Resolver.{PolicyData, State}
use kubestellar_workload_sta.Resolver.Ensure.{delete_previous, create_active, ensure_active_stage}
use kubestellar_workload_sta.Resolver.Condition.{attempt_condition}
use kubestellar_workload_sta.Resolver.Notes.{
  note_policy, new_entry, find_stage, active_stage_index, note_binding, note_combined_status,
  attempt_matching, delete_policy, keys,
}
use kubestellar_workload_sta.Resolver.Bounds.{
  InRange, IsBounded, ensure_SameStage, attempt_condition-IsBounded,
}

-- The search for the active stage's name stays within the stages.
find_stage-lt :
    {K : Kinds} (name : Str) (i n : ℕ) (stages : List (Stage K))
    → 0 < n
    → i + length stages ≤ n
    → find_stage name i stages < n
unfolding find_stage
find_stage-lt name i n [] p h = p
find_stage-lt name i n (stage ∷ stages) p h = ground (arith, find_stage-lt name (suc i) n stages p)

pub new_entry-InRange :
    {K : Kinds} (sbp : StagedBindingPolicy K) → 0 < length sbp.spec.stages → InRange (new_entry sbp)
unfolding new_entry active_stage_index
new_entry-InRange sbp h =
    ground
      (arith, find_stage-lt sbp.status.active_stage 0 (length sbp.spec.stages) sbp.spec.stages h)

module _ {K : Kinds} (C : Cluster K) (name : Str) (d : PolicyData K) (s : State C) where
  create_active_InRange : Ensures (create_active C name d s) (λ e s'. 0 < length d.stages)
  unfolding create_active
  create_active_InRange = grind (arith, lt_of_get_elem?)

module _ {K : Kinds} (C : Cluster K) (name : Str) (d : PolicyData K) (s : State C) where
  -- A policy without stages has no active stage to ensure: the method does not return.
  pub ensure_nonempty : Ensures (ensure_active_stage C name d s) (λ e s'. 0 < length d.stages)
  unfolding ensure_active_stage delete_previous
  ensure_nonempty =
      grind (arith, lt_of_get_elem?, λ (s' : State C). create_active_InRange C name d s')

module _ {K : Kinds} (C : Cluster K) (sbp : StagedBindingPolicy K) (s : State C) (j : Str) where
  abbrev EnsuredNew : Type 0
  EnsuredNew =
      Ensures (ensure_active_stage C sbp.metadata.name (new_entry sbp) s)
        (λ _ s'. IsBounded (lookup j s'.policies))

  ensure_new_of_eq :
      lookup sbp.metadata.name s.policies ≡ some (new_entry sbp)
      → j ≡ sbp.metadata.name
      → EnsuredNew
  unfolding new_entry
  ensure_new_of_eq h p = ground (
    arith,
    new_entry-InRange sbp,
    ensure_nonempty C sbp.metadata.name (new_entry sbp) s,
    ensure_SameStage C sbp.metadata.name (new_entry sbp) s j,
  )

  ensure_new_of_ne :
      lookup sbp.metadata.name s.policies ≡ some (new_entry sbp)
      → j ≢ sbp.metadata.name
      → IsBounded (lookup j s.policies)
      → EnsuredNew
  ensure_new_of_ne h n b = ground (arith, ensure_SameStage C sbp.metadata.name (new_entry sbp) s j)

module _ {K : Kinds} (C : Cluster K) (sbp : StagedBindingPolicy K) (s : State C) (j : Str) where
  pub note_policy-IsBounded :
      IsBounded (lookup j s.policies)
      → Ensures (note_policy C sbp s) (λ _ s'. IsBounded (lookup j s'.policies))
  unfolding note_policy
  note_policy-IsBounded h =
      let name = sbp.metadata.name in
      let d = new_entry sbp in
      let s1 : State C = record s { policies = insert name d s.policies } in
      Ensures-bind (λ _ s'. IsBounded (lookup j s'.policies))
        (λ _ s'. IsBounded (lookup j s'.policies)) (ensure_active_stage C name d)
        (λ e. elim e [ some f ↦ pure (some f) | none ↦ attempt_condition C name >> pure none ]) s1
        (elim (str_eq.dec j name) [
          | yes p ↦
              ensure_new_of_eq C sbp s1 j (ground (arith, lookup-insert name name d s.policies)) p
          | no n ↦
              ensure_new_of_ne C sbp s1 j (ground (arith, lookup-insert name name d s.policies)) n
                (ground (arith, lookup-insert j name d s.policies))
        ])
        (elim [
          | some f ↦ λ s' b. b
          | none ↦ λ s' b. ground (arith, attempt_condition-IsBounded C name s' j)
        ])

module _ {K : Kinds} (C : Cluster K) (s : State C) (j : Str) where
  pub delete_policy-IsBounded :
      (name : Str)
      → IsBounded (lookup j s.policies)
      → Ensures (delete_policy C name s) (λ _ s'. IsBounded (lookup j s'.policies))
  unfolding delete_policy
  delete_policy-IsBounded name h = ground (arith, lookup-erase j name s.policies)

  pub note_binding-IsBounded :
      (binding : Binding)
      → IsBounded (lookup j s.policies)
      → Ensures (note_binding C binding s) (λ _ s'. IsBounded (lookup j s'.policies))
  unfolding note_binding
  note_binding-IsBounded binding h = grind (
    arith,
    λ (name : Str) (d : PolicyData K). lookup-insert j name d s.policies,
    λ (name : Str) (s' : State C). attempt_condition-IsBounded C name s' j,
  )

module _ {K : Kinds} (C : Cluster K) (j : Str) where
  attempt_matching-IsBounded :
      (name : Str) (ks : List Str) (s : State C)
      → IsBounded (lookup j s.policies)
      → Ensures (attempt_matching C name ks s) (λ _ s'. IsBounded (lookup j s'.policies))
  unfolding attempt_matching
  attempt_matching-IsBounded name [] s h = h
  attempt_matching-IsBounded name (k ∷ ks) s h =
      Ensures-bind (λ _ s'. IsBounded (lookup j s'.policies))
        (λ _ s'. IsBounded (lookup j s'.policies))
        (if k == name then attempt_condition C k else pure tt) (λ _. attempt_matching C name ks) s
        (ground (arith, attempt_condition-IsBounded C k s j))
        (λ _ s' b. attempt_matching-IsBounded name ks s' b)

  pub note_combined_status-IsBounded :
      (cs : C.CombinedStatus) (s : State C)
      → IsBounded (lookup j s.policies)
      → Ensures (note_combined_status C cs s) (λ _ s'. IsBounded (lookup j s'.policies))
  unfolding note_combined_status
  note_combined_status-IsBounded cs s h = grind (
    arith,
    λ (name : Str). attempt_matching-IsBounded name (C.range_names (keys C s.policies)) s h,
  )
