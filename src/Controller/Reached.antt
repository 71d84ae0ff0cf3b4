-- ===== src/Controller/Reached.antt =====
-- The workers move the resolver by its own steps only.
use kubestellar_workload_sta.Base.{ℕ, zero, suc, Bool, true, false, Str, arith}
use kubestellar_workload_sta.Run.{Run, done, panicked, Ensures, Ensures_self}
use kubestellar_workload_sta.Api.{Kinds, StagedBindingPolicy, Binding}
use kubestellar_workload_sta.Cluster.{Cluster}
use kubestellar_workload_sta.Resolver.{State}
use kubestellar_workload_sta.Resolver.Notes.{
  note_policy, note_binding, note_combined_status, delete_policy,
}
use kubestellar_workload_sta.Resolver.Bounds.{IsValid}
use kubestellar_workload_sta.Resolver.Reach.{
  policy, deletion, binding, combined_status, Reach, here, next, Reach-IsValid_from,
}
use kubestellar_workload_sta.Controller.{
  WorkQueue, Item, policy_ref, binding_ref, combined_status_ref, object_identifier,
}
use kubestellar_workload_sta.Controller.Reconcile.{
  reconcile, sync_policy, process_binding, process_combined_status,
}
use kubestellar_workload_sta.Controller.Worker.{Controller, process_next_work_item, run_worker}

module _ {K : Kinds} (C : Cluster K) where
  pub note_policy-Reach :
      (sbp : StagedBindingPolicy K) (s : State C)
      → Ensures (note_policy C sbp s) (λ _ s'. Reach C s s')
  note_policy-Reach sbp s =
      Ensures_self (note_policy C sbp s) (λ _ s'. Reach C s s') λ e s' h. next here (policy sbp e h)

  pub delete_policy-Reach :
      (name : Str) (s : State C) → Ensures (delete_policy C name s) (λ _ s'. Reach C s s')
  delete_policy-Reach name s =
      Ensures_self (delete_policy C name s) (λ _ s'. Reach C s s')
        λ e s' h. next here (deletion name h)

  pub note_binding-Reach :
      (b : Binding) (s : State C) → Ensures (note_binding C b s) (λ _ s'. Reach C s s')
  note_binding-Reach b s =
      Ensures_self (note_binding C b s) (λ _ s'. Reach C s s') λ e s' h. next here (binding b h)

  pub note_combined_status-Reach :
      (cs : C.CombinedStatus) (s : State C)
      → Ensures (note_combined_status C cs s) (λ _ s'. Reach C s s')
  note_combined_status-Reach cs s =
      Ensures_self (note_combined_status C cs s) (λ _ s'. Reach C s s')
        λ e s' h. next here (combined_status cs h)

  reconcile-Reach :
      (item : Item) (s : State C) → Ensures (reconcile C item s) (λ _ s'. Reach C s s')
  unfolding reconcile sync_policy process_binding process_combined_status
  reconcile-Reach (policy_ref name) s = grind (
    arith,
    here,
    delete_policy-Reach name s,
    λ (sbp : StagedBindingPolicy K). note_policy-Reach sbp s,
  )
  reconcile-Reach (binding_ref name) s =
      grind (arith, here, λ (b : Binding). note_binding-Reach b s)
  reconcile-Reach (combined_status_ref key) s =
      grind (arith, here, λ (cs : C.CombinedStatus). note_combined_status-Reach cs s)
  reconcile-Reach (object_identifier _) s = here

pub Reach-trans :
    {K : Kinds} (C : Cluster K) {s t u : State C} → Reach C s t → Reach C t u → Reach C s u
Reach-trans C p here = p
Reach-trans C p (next r st) = next (Reach-trans C p r) st

module _ {K : Kinds} (C : Cluster K) (W : WorkQueue) where
  process_next_work_item-Reach :
      (c : Controller C W)
      → Ensures (process_next_work_item C W c) (λ _ c'. Reach C c.resolver c'.resolver)
  unfolding process_next_work_item
  process_next_work_item-Reach c =
      grind (arith, here, λ (item : Item). reconcile-Reach C item c.resolver)

  run_worker-Reach :
      (n : ℕ) (c : Controller C W)
      → Ensures (run_worker C W n c) (λ _ c'. Reach C c.resolver c'.resolver)
  unfolding run_worker
  run_worker-Reach zero c = here
  run_worker-Reach (suc n) c =
      go (process_next_work_item C W c) (process_next_work_item-Reach c) (run_worker-Reach n)
    where
      go :
          (r : Run (Controller C W) Bool)
          → Ensures r (λ _ c'. Reach C c.resolver c'.resolver)
          → ((d : Controller C W)
              → Ensures (run_worker C W n d) (λ _ c'. Reach C d.resolver c'.resolver))
          → Ensures
              (elim r [
                | panicked p c' ↦ panicked p c'
                | done false c' ↦ done true c'
                | done true c' ↦ run_worker C W n c'
              ])
              (λ _ c'. Reach C c.resolver c'.resolver)
      go (panicked p c') h ih = tt
      go (done false c') h ih = h
      go (done true c') h ih = extend (run_worker C W n c') (ih c')
        where
          extend :
              (r : Run (Controller C W) Bool)
              → Ensures r (λ _ d. Reach C c'.resolver d.resolver)
              → Ensures r (λ _ d. Reach C c.resolver d.resolver)
          extend (done b d) k = Reach-trans C h k
          extend (panicked p d) k = tt

  -- A worker that starts from a resolver on which every tracked policy has an active stage, and
  -- processes any number of items of the queue without a panic, leaves one on which every tracked
  -- policy has an active stage.
  run_worker-IsValid :
      (n : ℕ) (c : Controller C W)
      → IsValid C c.resolver
      → Ensures (run_worker C W n c) (λ _ c'. IsValid C c'.resolver)
  run_worker-IsValid n c v = weaken (run_worker C W n c) (run_worker-Reach n c)
    where
      along : {t : State C} → Reach C c.resolver t → IsValid C t
      along r = Reach-IsValid_from C v r

      weaken :
          (r : Run (Controller C W) Bool)
          → Ensures r (λ _ d. Reach C c.resolver d.resolver)
          → Ensures r (λ _ d. IsValid C d.resolver)
      weaken (done b d) k = along k
      weaken (panicked p d) k = tt
