-- ===== src/Resolver/Progress.antt =====
-- From a fulfilled stage to the next one, and what happens at the last.
use kubestellar_workload_sta.Base.{◌+◌, ◌≡◌, ◌∙◌, none, some, Str, str_eq, length, get_elem?}
use kubestellar_workload_sta.Base.Dict.{insert}
use kubestellar_workload_sta.Run.{done, panicked, index_out_of_range}
use kubestellar_workload_sta.Strings.{stage_name}
use kubestellar_workload_sta.Api.{Kinds, Stage}
use kubestellar_workload_sta.Cluster.{Cluster}
use kubestellar_workload_sta.Resolver.{State}
use kubestellar_workload_sta.Resolver.Ensure.{delete_failure}
use kubestellar_workload_sta.Resolver.Condition.{attempt_condition}
use kubestellar_workload_sta.Resolver.Staging.{rollout, settle, stage_up-rollout, stage_up_last}
use kubestellar_workload_sta.Resolver.Fulfilled.{
  RangesAll, IsFulfilled, IsUnambiguous, attempt_condition_complete,
}

module _ {K : Kinds} (C : Cluster K) (ranges : RangesAll C) (name : Str) (s : State C) where
  -- A fulfilled stage that has a next one: the attempt deletes the BindingPolicy of the stage, creates
  -- that of the next, updates the status, and settles the entry by the outcome of these calls. `range`
  -- visits the elements of a set in some order, and no second status of an object has the UID.
  pub attempt_condition_next :
      (f : IsFulfilled C name s)
      → IsUnambiguous C ranges name s f
      → (next : Stage K) → get_elem? f.0.stages (f.0.active_index + 1) ≡ some next
      → attempt_condition C name s ≡ (
          let (outcome, server) = rollout C name f.0 f.1 next s.server in
          done tt
            (record { policies = insert name (settle outcome f.0) s.policies; server = server }))
  attempt_condition_next f unique next n =
      attempt_condition_complete C ranges name s f unique
      ∙ stage_up-rollout C name f.0 f.1 next s f.3 f.4 n

  -- A last stage with a condition that is fulfilled: if its BindingPolicy is deleted or was not there,
  -- the attempt panics with an index out of range, and the workload's last BindingPolicy is gone.
  pub attempt_condition_last :
      (f : IsFulfilled C name s)
      → IsUnambiguous C ranges name s f
      → length f.0.stages ≡ f.0.active_index + 1
      → delete_failure C (C.delete_binding_policy (stage_name name f.1.name) s.server).0 ≡ none
      → (s' : State C) × (attempt_condition C name s ≡ panicked index_out_of_range s')
        × (s'.server ≡ (C.delete_binding_policy (stage_name name f.1.name) s.server).1)
  attempt_condition_last f unique n e =
      let (s', p, q) = stage_up_last C name f.0 f.1 s f.3 f.4 n e in
      (s', attempt_condition_complete C ranges name s f unique ∙ p, q)
