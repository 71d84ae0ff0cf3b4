-- ===== src/Controller/Enqueued.antt =====
-- Which events put a reference on the queue.
use kubestellar_workload_sta.Base.{
  ℕ, ◌≡◌, refl, Bool, true, false, Str, ◌==◌, nat_eq, str_eq, if◌then◌else◌, arith,
}
use kubestellar_workload_sta.Api.{Kinds, StagedBindingPolicy, Binding}
use kubestellar_workload_sta.Cluster.{Cluster, ok}
use kubestellar_workload_sta.Controller.{WorkQueue, policy_ref, binding_ref, combined_status_ref}
use kubestellar_workload_sta.Controller.Events.{
  Event, added, updated, deleted, last_known, on_binding, on_policy, on_combined_status,
}

-- The object that an event is about.
abbrev subject : {A : Type 0} → Event A → A
subject (added a) = a
subject (updated old new) = new
subject (deleted d) = last_known d

module _ {A : Type 0} (generation : A → ℕ) where
  -- Every event but an update that leaves the generation as it was.
  abbrev is_change : Event A → Bool
  is_change (updated old new) = if generation old == generation new then false else true
  is_change (added a) = true
  is_change (deleted d) = true

module _ {K : Kinds} (C : Cluster K) (W : WorkQueue) (q : W.Queue) where
  on_policy-eq :
      (p : Event (StagedBindingPolicy K))
      → on_policy C W p q ≡ (
          if is_change (λ x. x.metadata.generation) p
          then W.add (policy_ref (subject p).metadata.name) q
          else q)
  unfolding on_policy
  on_policy-eq (updated old new) = ground arith
  on_policy-eq _ = refl

  on_binding-eq :
      (b : Event Binding)
      → on_binding C W b q ≡ (
          if is_change (λ x. x.metadata.generation) b
          then W.add (binding_ref (subject b).metadata.name) q
          else q)
  unfolding on_binding
  on_binding-eq (updated old new) = ground arith
  on_binding-eq _ = refl

  on_combined_status-eq :
      (cs : Event C.CombinedStatus) (key : Str)
      → C.status_key (subject cs) ≡ ok key
      → on_combined_status C W cs q
        ≡ (if is_change C.status_generation cs then W.add (combined_status_ref key) q else q)
  unfolding on_combined_status
  on_combined_status-eq (updated old new) key h = ground arith
  on_combined_status-eq _ key h = ground arith

  -- Each of the three handlers adds one reference, by the name or the key of the object, exactly for the
  -- events that are no update with an unchanged generation. A combined status has a key.
  pub handlers_enqueue :
      (p : Event (StagedBindingPolicy K)) (b : Event Binding) (cs : Event C.CombinedStatus)
      (key : Str)
      → C.status_key (subject cs) ≡ ok key
      → (on_policy C W p q ≡ (
          if is_change (λ x. x.metadata.generation) p
          then W.add (policy_ref (subject p).metadata.name) q
          else q))
        × (on_binding C W b q ≡ (
            if is_change (λ x. x.metadata.generation) b
            then W.add (binding_ref (subject b).metadata.name) q
            else q))
        × (on_combined_status C W cs q
            ≡ (if is_change C.status_generation cs then W.add (combined_status_ref key) q else q))
  handlers_enqueue p b cs key h = (on_policy-eq p, on_binding-eq b, on_combined_status-eq cs key h)
