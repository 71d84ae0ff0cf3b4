-- ===== src/Tests/Rollouts.antt =====
-- The theorems on whole rollouts at concrete inputs: a history, a cycle of the controller, and a worker
-- that ends.
use kubestellar_workload_sta.Base.{
  ◌≡◌, refl, Bool, true, Option, none, some, List, [], ◌∷◌, codes, str_eq, nat_eq, length,
  if◌then◌else◌, arith,
}
use kubestellar_workload_sta.Base.Dict.{lookup, insert}
use kubestellar_workload_sta.Run.{done, final, Ensures}
use kubestellar_workload_sta.Api.{Stage}
use kubestellar_workload_sta.Resolver.{State, new_resolver}
use kubestellar_workload_sta.Resolver.Notes.{note_policy}
use kubestellar_workload_sta.Resolver.Reach.{
  Step, Reach, here, next, policy as policy_step, binding as binding_step,
}
use kubestellar_workload_sta.Resolver.Staging.{settle, rollout}
use kubestellar_workload_sta.Resolver.History.{History}
use kubestellar_workload_sta.Resolver.History.Climbed.{HasClimbed, Reach-HasClimbed}
use kubestellar_workload_sta.Resolver.History.Steps.{Step-History}
use kubestellar_workload_sta.Controller.{WorkQueue, Item, policy_ref}
use kubestellar_workload_sta.Controller.Events.{added, on_combined_status}
use kubestellar_workload_sta.Controller.Worker.{Controller, process_next_work_item, run_worker}
use kubestellar_workload_sta.Controller.Cycle.{added-rollout}
use kubestellar_workload_sta.Controller.Ends.{Drains, run_worker_ends}
use kubestellar_workload_sta.Tests.Fixture.{kinds, cluster}
use kubestellar_workload_sta.Tests.Runs.{
  app, dev, prod, entry, ready, status, policy, server, binding, bound, run_note,
}
use kubestellar_workload_sta.Tests.Queue.{list_queue}
use kubestellar_workload_sta.Tests.Staging.{ranges, fulfilled, unambiguous}

abbrev stages : List (Stage kinds)
stages = dev ∷ prod ∷ []

-- The policy is noted, then its binding, at which the policy is staged up.
abbrev after_note : State cluster
after_note = final (note_policy cluster (policy stages) (new_resolver cluster (server stages true)))

staging_up : Step cluster after_note (bound stages true)
unfolding bound
staging_up = binding_step binding refl

climbing : Reach cluster (new_resolver cluster (server stages true)) (bound stages true)
unfolding run_note
climbing = next (next here (policy_step (policy stages) none refl)) staging_up

Step-History_example :
    History cluster app staging_up
      (lookup app after_note.policies)
      (lookup app (bound stages true).policies)
Step-History_example = Step-History cluster ranges app staging_up

Reach-HasClimbed_example :
    HasClimbed cluster app
      (bound stages true)
      climbing
      (record (entry stages) { active_index = 1; active_binding_policy_uid = codes "u2" })
unfolding bound
Reach-HasClimbed_example =
    Reach-HasClimbed cluster app ranges refl climbing
      (record (entry stages) { active_index = 1; active_binding_policy_uid = codes "u2" }) refl

added-rollout_example :
    process_next_work_item cluster list_queue (record {
      queue = on_combined_status cluster list_queue (added (status true)) [];
      resolver = ready stages;
    })
    ≡ (let (outcome, server) = rollout cluster app (entry stages) dev prod (ready stages).server in
        done true (record {
          queue = [];
          resolver = record {
            policies = insert app (settle outcome (entry stages)) (ready stages).policies;
            server = server;
          };
        }))
unfolding run_note fulfilled
added-rollout_example =
    added-rollout cluster list_queue ranges app (ready stages) (fulfilled (prod ∷ []))
      (unambiguous (prod ∷ [])) prod (codes "dev") (status true) (codes "u1.web") []
      (codes "u1.web") [] [] [] refl refl refl refl refl (λ i. i) (λ i. i) refl refl refl
      (λ item. refl)

-- A queue that is shut down or not.
record Shutting : Type 0 where
  items : List Item
  shut : Bool

abbrev take_item : Shutting → Option Item × Shutting
take_item q = elim q.items [ [] ↦ (none, q) | item ∷ rest ↦ (some item, record q { items = rest }) ]

abbrev shutting_queue : WorkQueue
shutting_queue = record {
  Queue = Shutting;
  add = λ item q. if q.shut then q else record q { items = item ∷ q.items };
  add_rate_limited = λ item q. if q.shut then q else record q { items = item ∷ q.items };
  forget = λ item q. q;
  finish = λ item q. q;
  get = take_item;
}

shutting_queue-Drains : Drains shutting_queue (λ q. q.shut ≡ true) (λ q. length q.items)
shutting_queue-Drains = record {
  get = λ q item h g. ground arith;
  add_rate_limited = λ item q h. ground arith;
  forget = λ item q h. (h, omega arith);
  finish = λ item q h. (h, omega arith);
}

-- Two references to policies, of which the first is not known.
abbrev closing : Controller cluster shutting_queue
closing = record {
  queue = record { items = policy_ref (codes "gone") ∷ policy_ref app ∷ []; shut = true };
  resolver = new_resolver cluster (server stages true);
}

run_worker_ends_example :
    Ensures (run_worker cluster shutting_queue 3 closing) (λ ended c'. ended ≡ true)
run_worker_ends_example =
    run_worker_ends cluster shutting_queue shutting_queue-Drains 3 closing refl (omega arith)
