-- ===== src/Tests/Failures.antt =====
-- The theorems on the handlers' failures at concrete inputs: a cache that fails, and a BindingPolicy whose
-- name is taken.
use kubestellar_workload_sta.Base.{refl, str_eq, nat_eq}
use kubestellar_workload_sta.Lister
use kubestellar_workload_sta.Controller.{policy_ref}
use kubestellar_workload_sta.Controller.Reconcile.{reconcile, sync_policy}
use kubestellar_workload_sta.Controller.Failures.{FailsBy, reconcile_failure}
use kubestellar_workload_sta.Tests.Fixture.{cluster}
use kubestellar_workload_sta.Tests.Runs.{app, run_note}
use kubestellar_workload_sta.Tests.Queue.{failing, failure, state_after}

reconcile_failure_example :
    FailsBy cluster
      (policy_ref app)
      failing.resolver
      (state_after (reconcile cluster (policy_ref app) failing.resolver))
      (failure (reconcile cluster (policy_ref app) failing.resolver))
unfolding run_note reconcile sync_policy Lister.get failure state_after
reconcile_failure_example =
    reconcile_failure cluster (policy_ref app) failing.resolver
      (state_after (reconcile cluster (policy_ref app) failing.resolver))
      (failure (reconcile cluster (policy_ref app) failing.resolver)) refl
