-- ===== src/Controller/Events.antt =====
-- The event handlers that `setupBindingInformer`, `setupCombinedStatusInformer` and
-- `setupStagedBindingPolicyInformer` register, and the enqueueing functions of controller.go.
use kubestellar_workload_sta.Base.{◌==◌, nat_eq, str_eq, if◌then◌else◌}
use kubestellar_workload_sta.Api.{Kinds, StagedBindingPolicy, Binding}
use kubestellar_workload_sta.Cluster.{Cluster, ok, err}
use kubestellar_workload_sta.Controller.{WorkQueue, policy_ref, binding_ref, combined_status_ref}

-- What a deletion handler is given: the object, or the last state known of it.
pub data Deleted (A : Type 0) : Type 0 where
  object : A → Deleted A
  final_state_unknown : A → Deleted A

abbrev pub last_known : {A : Type 0} → Deleted A → A
last_known (object a) = a
last_known (final_state_unknown a) = a

pub data Event (A : Type 0) : Type 0 where
  added : A → Event A
  updated : A → A → Event A
  deleted : Deleted A → Event A

module _ {K : Kinds} (C : Cluster K) (W : WorkQueue) where
  unfoldable pub on_binding : Event Binding → W.Queue → W.Queue
  on_binding (added b) q = W.add (binding_ref b.metadata.name) q
  on_binding (updated old new) q =
      if old.metadata.generation == new.metadata.generation
      then q
      else W.add (binding_ref new.metadata.name) q
  on_binding (deleted d) q = W.add (binding_ref (last_known d).metadata.name) q

  unfoldable pub on_policy : Event (StagedBindingPolicy K) → W.Queue → W.Queue
  on_policy (added p) q = W.add (policy_ref p.metadata.name) q
  on_policy (updated old new) q =
      if old.metadata.generation == new.metadata.generation
      then q
      else W.add (policy_ref new.metadata.name) q
  on_policy (deleted d) q = W.add (policy_ref (last_known d).metadata.name) q

  unfoldable pub enqueue_combined_status : C.CombinedStatus → W.Queue → W.Queue
  enqueue_combined_status cs q = elim (C.status_key cs) [
    | err _ ↦ q
    | ok key ↦ W.add (combined_status_ref key) q
  ]

  unfoldable pub on_combined_status : Event C.CombinedStatus → W.Queue → W.Queue
  unfolding enqueue_combined_status
  on_combined_status (added cs) q = enqueue_combined_status cs q
  on_combined_status (updated old new) q =
      if C.status_generation old == C.status_generation new
      then q
      else enqueue_combined_status new q
  on_combined_status (deleted d) q = enqueue_combined_status (last_known d) q
