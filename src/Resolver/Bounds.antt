-- ===== src/Resolver/Bounds.antt =====
-- The active index of a tracked policy stays below the number of its stages.
use kubestellar_workload_sta.Base.{
  ◌+◌, ◌<◌, ◌≡◌, ◌≢◌, refl, Option, none, some, Str, length, str_eq, arith, lt_of_get_elem?,
}
use kubestellar_workload_sta.Base.Dict.{lookup, insert, lookup-insert}
use kubestellar_workload_sta.Run.{Ensures, Ensures-bind, pure}
use kubestellar_workload_sta.Api.{Kinds}
use kubestellar_workload_sta.Cluster.{Cluster, Failure}
use kubestellar_workload_sta.Resolver.{PolicyData, State}
use kubestellar_workload_sta.Resolver.Ensure.{
  delete_previous, create_active, ensure_active_stage, revert, advance, stage_up,
}
use kubestellar_workload_sta.Resolver.Condition.{attempt_condition, attempt_stage}

abbrev pub InRange : {K : Kinds} → PolicyData K → Type 0
InRange d = d.active_index < length d.stages

abbrev pub IsBounded : {K : Kinds} → Option (PolicyData K) → Type 0
IsBounded none = Unit
IsBounded (some d) = InRange d

-- Two entries with the same stages and the same active stage.
abbrev SameStage : {K : Kinds} → Option (PolicyData K) → Option (PolicyData K) → Type 0
SameStage none none = Unit
SameStage (some a) (some b) = (a.active_index ≡ b.active_index) × (a.stages ≡ b.stages)
SameStage _ _ = ⊥

-- Every tracked policy has an active stage.
abbrev pub IsValid : {K : Kinds} (C : Cluster K) → State C → Type 0
IsValid C s = (name : Str) → IsBounded (lookup name s.policies)

module _ {K : Kinds} (C : Cluster K) (name : Str) (d : PolicyData K) (s : State C) (j : Str) where
  delete_previous_policies : Ensures (delete_previous C name d s) (λ e s'. s'.policies ≡ s.policies)
  unfolding delete_previous
  delete_previous_policies = ground arith

  create_active-SameStage :
      lookup name s.policies ≡ some d
      → Ensures
          (create_active C name d s)
          (λ e s'. SameStage (lookup j s.policies) (lookup j s'.policies) × InRange d)
  unfolding create_active
  create_active-SameStage h = grind (arith, lookup-insert, lt_of_get_elem?)

module _ {K : Kinds} (C : Cluster K) (name : Str) (d : PolicyData K) (s : State C) (j : Str) where
  pub ensure_SameStage :
      lookup name s.policies ≡ some d
      → Ensures
          (ensure_active_stage C name d s)
          (λ e s'. SameStage (lookup j s.policies) (lookup j s'.policies) × (e ≡ none → InRange d))
  unfolding ensure_active_stage
  ensure_SameStage h = grind (
    arith,
    delete_previous_policies C name d s,
    λ (s' : State C). create_active-SameStage C name d s' j,
  )

module _ {K : Kinds} (C : Cluster K) (name : Str) (d : PolicyData K) (s : State C) (j : Str) where
  -- Once a stage is ensured, the entries are bounded, but for that of `name` after a failure.
  abbrev AfterEnsure : Option (Failure C.Error) → State C → Type 0
  AfterEnsure e s' =
      (e ≡ none → IsBounded (lookup j s'.policies))
      × SameStage (some d) (lookup name s'.policies)
      × (j ≢ name → IsBounded (lookup j s'.policies))

module _ {K : Kinds} (C : Cluster K) (name : Str) (d : PolicyData K) (s : State C) (j : Str) where
  ensure_AfterEnsure :
      lookup name s.policies ≡ some d
      → (j ≢ name → IsBounded (lookup j s.policies))
      → Ensures (ensure_active_stage C name d s) (AfterEnsure C name d s j)
  ensure_AfterEnsure h b = elim (str_eq.dec j name) [
    | yes p ↦ rw p (ground (arith, ensure_SameStage C name d s name))
    | no n ↦ ground (arith, b n, ensure_SameStage C name d s name, ensure_SameStage C name d s j)
  ]

module _ {K : Kinds} (C : Cluster K) (name : Str) (d : PolicyData K) (s : State C) (j : Str) where
  revert-IsBounded :
      SameStage (some (record d { active_index = d.active_index + 1 })) (lookup name s.policies)
      → InRange d
      → (j ≢ name → IsBounded (lookup j s.policies))
      → Ensures (revert C name s) (λ _ s'. IsBounded (lookup j s'.policies))
  unfolding revert
  revert-IsBounded h k b = grind (arith, λ (d' : PolicyData K). lookup-insert j name d' s.policies)

module _ {K : Kinds} (C : Cluster K) (name : Str) (d : PolicyData K) (s : State C) (j : Str) where
  advance-IsBounded :
      InRange d
      → IsBounded (lookup j s.policies)
      → Ensures (advance C name d s) (λ _ s'. IsBounded (lookup j s'.policies))
  unfolding advance
  advance-IsBounded h k =
      let d' = record d { active_index = d.active_index + 1 } in
      let s1 : State C = record s { policies = insert name d' s.policies } in
      let ensured =
        ensure_AfterEnsure C name d' s1 j (ground (arith, lookup-insert name name d' s.policies))
          (ground (arith, lookup-insert j name d' s.policies)) in
      Ensures-bind (AfterEnsure C name d' s1 j) (λ _ s'. IsBounded (lookup j s'.policies))
        (ensure_active_stage C name d') (λ e. elim e [ none ↦ pure tt | some _ ↦ revert C name ]) s1
        ensured
        (elim [
          | none ↦ λ s' after. after.0 refl
          | some f ↦ λ s' after. revert-IsBounded C name d s' j after.1 h after.2
        ])

module _ {K : Kinds} (C : Cluster K) (name : Str) (s : State C) (j : Str) where
  stage_up-IsBounded :
      IsBounded (lookup j s.policies)
      → Ensures (stage_up C name s) (λ _ s'. IsBounded (lookup j s'.policies))
  unfolding stage_up
  stage_up-IsBounded h = grind (arith, λ (d : PolicyData K). advance-IsBounded C name d s j)

  pub attempt_condition-IsBounded :
      IsBounded (lookup j s.policies)
      → Ensures (attempt_condition C name s) (λ _ s'. IsBounded (lookup j s'.policies))
  unfolding attempt_condition attempt_stage
  attempt_condition-IsBounded h = ground (arith, stage_up-IsBounded)
