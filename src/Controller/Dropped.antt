-- ===== src/Controller/Dropped.antt =====
-- What becomes of the identifiers that `handleObject` puts on the queue.
use kubestellar_workload_sta.Base.{◌≡◌, true, some, Str, arith}
use kubestellar_workload_sta.Run.{done}
use kubestellar_workload_sta.Api.{Kinds}
use kubestellar_workload_sta.Cluster.{Cluster}
use kubestellar_workload_sta.Resolver.{State}
use kubestellar_workload_sta.Controller.{WorkQueue, Item, object_identifier}
use kubestellar_workload_sta.Controller.Events.{Deleted, last_known}
use kubestellar_workload_sta.Controller.Objects.{
  Objects, handle_object, enqueue_object, enqueue_object_identifier,
}
use kubestellar_workload_sta.Controller.Reconcile.{reconcile}
use kubestellar_workload_sta.Controller.Worker.{process_next_work_item}

module _ {K : Kinds} (C : Cluster K) (W : WorkQueue) (O : Objects) where
  -- An object that `handleObject` enqueues is dropped: where the queue gives an item that was added to it,
  -- the worker takes the object's identifier off, forgets it, and goes on with the resolver as it was.
  process_next_work_item-handle_object :
      (obj : Deleted O.Object) (resource : Str) (q : W.Queue) (resolver : State C)
      → ((item : Item) → (W.get (W.add item q)).0 ≡ some item)
      → let item = object_identifier (O.identifier_for_object (last_known obj) resource) in
        process_next_work_item C W
          (record { queue = handle_object O W obj resource q; resolver = resolver })
        ≡ done true (record {
          queue = W.finish item (W.forget item (W.get (W.add item q)).1);
          resolver = resolver;
        })
  unfolding process_next_work_item reconcile handle_object enqueue_object enqueue_object_identifier
  process_next_work_item-handle_object obj resource q resolver given =
      ground (arith, given (object_identifier (O.identifier_for_object (last_known obj) resource)))
