-- ===== src/Controller/Cycle.antt =====
-- From the event of a combined status to the next stage: the handler, the queue, the worker, the
-- resolver and the API server.
use kubestellar_workload_sta.Base.{
  ◌+◌, ◌≡◌, false, true, some, List, ◌∷◌, ◌++◌, Str, In, str_eq, arith, get_elem?,
}
use kubestellar_workload_sta.Base.Dict.{lookup, insert}
use kubestellar_workload_sta.Run.{done}
use kubestellar_workload_sta.Strings.{contains, stage_name, stage_separator}
use kubestellar_workload_sta.Strings.StageName.{IsClean}
use kubestellar_workload_sta.Api.{Kinds, Stage}
use kubestellar_workload_sta.Cluster.{Cluster, ok}
use kubestellar_workload_sta.Resolver.{State}
use kubestellar_workload_sta.Resolver.Condition.{label_binding_policy}
use kubestellar_workload_sta.Resolver.Notes.{keys}
use kubestellar_workload_sta.Resolver.Staging.{rollout, settle}
use kubestellar_workload_sta.Resolver.Fulfilled.{RangesAll, IsFulfilled, IsUnambiguous}
use kubestellar_workload_sta.Resolver.Progress.{attempt_condition_next}
use kubestellar_workload_sta.Resolver.Matching.{note_combined_status-stage_name}
use kubestellar_workload_sta.Controller.{WorkQueue, Item, combined_status_ref}
use kubestellar_workload_sta.Controller.Events.{added, on_combined_status}
use kubestellar_workload_sta.Controller.Reconcile.{reconcile, process_combined_status}
use kubestellar_workload_sta.Controller.Worker.{process_next_work_item}

module _ {K : Kinds} (C : Cluster K) (W : WorkQueue) (ranges : RangesAll C) (name : Str)
    (s : State C) (f : IsFulfilled C name s) (unique : IsUnambiguous C ranges name s f) where
  -- The whole way: a combined status is added, in the cluster and in the informer's cache, that is labelled
  -- with a BindingPolicy of the policy `name`, whose active stage is thereby fulfilled. Its handler puts a
  -- reference on a queue that gives what was added to it, and the worker that takes it off makes the calls
  -- of the step to the next stage, settles the entry by their outcome, and goes on.
  pub added-rollout :
      (next : Stage K) (stage : Str) (cs : C.CombinedStatus) (key namespace cs_name : Str)
      (before after : List Str) (q : W.Queue)
      → get_elem? f.0.stages (f.0.active_index + 1) ≡ some next
      → IsClean name
      → contains stage stage_separator ≡ false
      → lookup label_binding_policy (C.status_labels cs) ≡ some (stage_name name stage)
      → C.range_names (keys C s.policies) ≡ before ++ name ∷ after
      → ¬ (In name before)
      → ¬ (In name after)
      → C.status_key cs ≡ ok key
      → C.split_key key ≡ ok (namespace, cs_name)
      → C.cached_combined_status namespace cs_name s.server ≡ ok cs
      → ((item : Item) → (W.get (W.add item q)).0 ≡ some item)
      → process_next_work_item C W
          (record { queue = on_combined_status C W (added cs) q; resolver = s })
        ≡ (let (outcome, server) = rollout C name f.0 f.1 next s.server in
            let item = combined_status_ref key in
            done true (record {
              queue = W.finish item (W.forget item (W.get (W.add item q)).1);
              resolver = record {
                policies = insert name (settle outcome f.0) s.policies;
                server = server;
              };
            }))
  unfolding process_next_work_item reconcile process_combined_status on_combined_status
  added-rollout next stage cs key namespace cs_name before after q n clean plain label visits b a k
        split cached given =
      ground (
        arith,
        given (combined_status_ref key),
        note_combined_status-stage_name C name stage cs s before after clean plain label visits b a,
        attempt_condition_next C ranges name s f unique next n,
      )
