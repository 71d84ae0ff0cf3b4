-- ===== src/Controller/Requeue.antt =====
-- What becomes of a work item: which failures put it back on the queue, and what a reconciled
-- reference to a deleted policy does.
use kubestellar_workload_sta.Base.{
  ◌≡◌, codes, true, false, none, some, Str, arith, str_eq, ◌==◌, if◌then◌else◌,
}
use kubestellar_workload_sta.Base.Dict.{lookup, lookup-erase}
use kubestellar_workload_sta.Run.{done, Returns}
use kubestellar_workload_sta.Api.{Kinds}
use kubestellar_workload_sta.Cluster.{Cluster, Failure, ok, err}
use kubestellar_workload_sta.Lister
use kubestellar_workload_sta.Resolver.{State}
use kubestellar_workload_sta.Resolver.Notes.{delete_policy}
use kubestellar_workload_sta.Controller.{WorkQueue, Item, policy_ref, binding_ref}
use kubestellar_workload_sta.Controller.Reconcile.{reconcile, sync_policy, process_binding}
use kubestellar_workload_sta.Controller.Worker.{Controller, process_next_work_item}

module _ {K : Kinds} (C : Cluster K) where
  -- A reference to a policy that is not in the cache: reconciling it returns no error and calls no
  -- API, the policy is tracked no longer, and every other entry is as it was. `errors.NewNotFound`
  -- makes an error that `errors.IsNotFound` recognises.
  pub reconcile_of_absent :
      (name : Str) (s : State C) (j : Str)
      → ((resource n : Str) → C.is_not_found (C.new_not_found resource n) ≡ true)
      → C.policy_by_key name s.server ≡ ok none
      → Returns (reconcile C (policy_ref name) s) (λ e s'.
        (e ≡ none)
        × (s'.server ≡ s.server)
        × (lookup j s'.policies ≡ (if j == name then none else lookup j s.policies)))
  unfolding reconcile sync_policy Lister.get delete_policy
  reconcile_of_absent name s j recognised absent =
      ground (arith, recognised (codes "stagedbindingpolicy") name, lookup-erase j name s.policies)

  -- Processing a binding returns an error only where the lister failed with another error than
  -- not-found, and then nothing has changed. In particular a stage-up that fails is not retried.
  pub reconcile_binding_failure :
      (name : Str) (s s' : State C) (f : Failure C.Error)
      → reconcile C (binding_ref name) s ≡ done (some f) s'
      → (x : C.Error) × (C.cached_binding name s.server ≡ err x)
        × (C.is_not_found x ≡ false)
        × (s' ≡ s)
  unfolding reconcile process_binding
  reconcile_binding_failure name s s' f h = ground arith

-- What the client-go queue documents: an item that is added again waits, and stays waiting when its
-- processing is marked as finished.
record Requeues (W : WorkQueue) (Waits : Item → W.Queue → Type 0) : Type 0 where
  waits-add_rate_limited : (item : Item) (q : W.Queue) → Waits item (W.add_rate_limited item q)
  waits-finish : (item : Item) (q : W.Queue) → Waits item q → Waits item (W.finish item q)

module _ {K : Kinds} (C : Cluster K) (W : WorkQueue) (Waits : Item → W.Queue → Type 0)
    (laws : Requeues W Waits) where
  -- An item whose reconciliation returns an error waits in the queue again, and the worker goes on. The
  -- queue keeps an item that is added back while it is being processed.
  process_next_work_item_requeues :
      (c : Controller C W) (item : Item) (q : W.Queue) (f : Failure C.Error) (s : State C)
      → W.get c.queue ≡ (some item, q)
      → reconcile C item c.resolver ≡ done (some f) s
      → Returns
          (process_next_work_item C W c)
          (λ goes_on c'. (goes_on ≡ true) × (c'.resolver ≡ s) × Waits item c'.queue)
  unfolding process_next_work_item
  process_next_work_item_requeues c item q f s g r = ground (
    arith,
    laws.waits-add_rate_limited item q,
    laws.waits-finish item (W.add_rate_limited item q),
  )
