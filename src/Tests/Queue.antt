-- ===== src/Tests/Queue.antt =====
-- The theorems on the work queue at concrete inputs: a queue that is a list.
use kubestellar_workload_sta.Base.{
  ◌≡◌, refl, true, Option, none, some, List, [], ◌∷◌, codes, str_eq, nat_eq, ◌==◌, if◌then◌else◌,
}
use kubestellar_workload_sta.Base.Dict.{lookup}
use kubestellar_workload_sta.Run.{Run, done, Returns}
use kubestellar_workload_sta.Cluster.{Failure, external}
use kubestellar_workload_sta.Resolver.{State}
use kubestellar_workload_sta.Controller.{
  WorkQueue, Item, policy_ref, binding_ref, combined_status_ref,
}
use kubestellar_workload_sta.Controller.Events.{
  updated, added, deleted, final_state_unknown, on_policy, on_binding, on_combined_status,
}
use kubestellar_workload_sta.Controller.Enqueued.{handlers_enqueue}
use kubestellar_workload_sta.Controller.Reconcile.{reconcile}
use kubestellar_workload_sta.Controller.Worker.{Controller}
use kubestellar_workload_sta.Controller.Requeue.{reconcile_of_absent}
use kubestellar_workload_sta.Tests.Fixture.{cluster, not_found}
use kubestellar_workload_sta.Tests.Runs.{app, dev, prod, ready, status, policy, server, binding}

abbrev next_item : List Item → Option Item × List Item
next_item [] = (none, [])
next_item (item ∷ items) = (some item, items)

abbrev pub list_queue : WorkQueue
list_queue = record {
  Queue = List Item;
  add = λ item q. item ∷ q;
  add_rate_limited = λ item q. item ∷ q;
  forget = λ item q. q;
  finish = λ item q. q;
  get = next_item;
}

-- The name of the first stage's BindingPolicy is taken, so that noting the policy fails.
abbrev pub failing : Controller cluster list_queue
failing = record {
  queue = policy_ref app ∷ [];
  resolver = record {
    policies = [];
    server = record (server (dev ∷ prod ∷ []) true) {
      binding_policies = (codes "app.stage.dev", codes "old") ∷ [];
    };
  };
}

unfoldable pub failure :
    Run (State cluster) (Option (Failure cluster.Error)) → Failure cluster.Error
failure (done (some f) s) = f
failure _ = external not_found

unfoldable pub state_after : Run (State cluster) (Option (Failure cluster.Error)) → State cluster
state_after (done e s) = s
state_after _ = failing.resolver

abbrev gone : State cluster
gone = record (ready (dev ∷ prod ∷ [])) {
  server = record (ready (dev ∷ prod ∷ [])).server { policies = [] };
}

reconcile_of_absent_example : Returns (reconcile cluster (policy_ref app) gone) (λ e s'.
    (e ≡ none)
    × (s'.server ≡ gone.server)
    × (lookup app s'.policies ≡ (if app == app then none else lookup app gone.policies)))
unfolding lookup
reconcile_of_absent_example = reconcile_of_absent cluster app gone app (λ resource n. refl) refl

handlers_enqueue_example :
    (on_policy cluster list_queue (updated (policy []) (policy [])) [] ≡ [])
    × (on_binding cluster list_queue (added binding) [] ≡ binding_ref (codes "app.stage.dev") ∷ [])
    × (on_combined_status cluster list_queue (deleted (final_state_unknown (status true))) []
        ≡ combined_status_ref (codes "u1.web") ∷ [])
unfolding nat_eq
handlers_enqueue_example =
    handlers_enqueue cluster list_queue [] (updated (policy []) (policy [])) (added binding)
      (deleted (final_state_unknown (status true))) (codes "u1.web") refl
