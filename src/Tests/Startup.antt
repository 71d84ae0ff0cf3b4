-- ===== src/Tests/Startup.antt =====
-- The theorems on the controller's start at concrete inputs: a platform that numbers its calls.
use kubestellar_workload_sta.Base.{ℕ, refl, Bool, true, none, some, List, [], ◌∷◌}
use kubestellar_workload_sta.Cluster.{ok}
use kubestellar_workload_sta.Controller.Start.{
  Platform, Process, start_controller, setup_binding_informer, setup_combined_status_informer,
  setup_policy_informer, new_cel_evaluator,
}
use kubestellar_workload_sta.Controller.Started.{IsPrepared, IsStarted, start_controller-IsStarted}
use kubestellar_workload_sta.Tests.Fixture.{cluster}
use kubestellar_workload_sta.Tests.Runs.{dev, prod, server}
use kubestellar_workload_sta.Tests.Queue.{list_queue}

-- The calls, the latest first; the caches sync or they do not.
abbrev pub platform : Bool → Platform cluster list_queue
platform synced = record {
  World = List ℕ;
  Env = Unit {0};
  new_env = λ declarations. ok tt;
  add_binding_handler = λ handler w. (none, 1 ∷ w);
  add_combined_status_handler = λ handler w. (none, 2 ∷ w);
  add_policy_handler = λ handler w. (none, 3 ∷ w);
  ks_informer_factory_start = λ w. 4 ∷ w;
  sbp_informer_factory_start = λ w. 5 ∷ w;
  wait_for_cache_sync = λ informers w. (synced, 6 ∷ w);
  go_worker = λ i w. 7 ∷ w;
  await_done = λ w. 8 ∷ w;
  shut_down = λ w. 9 ∷ w;
  go_until_timer = λ f w. let (e, w') = f w in (some e, w');
}

abbrev pub fresh : (synced : Bool) → Process (platform synced)
fresh synced = record { resolver = none; world = [] }

platform-IsPrepared : (synced : Bool) → IsPrepared (platform synced) []
platform-IsPrepared synced = record {
  binding_handler = refl;
  combined_status_handler = refl;
  policy_handler = refl;
  environment = refl;
}

platform-IsStarted : IsStarted (platform true) []
platform-IsStarted = record {
  prepared = platform-IsPrepared true;
  ks_synced = refl;
  sbp_synced = refl;
}

start_controller-IsStarted_example : IsStarted (platform true) []
unfolding start_controller setup_binding_informer setup_combined_status_informer
    setup_policy_informer new_cel_evaluator
start_controller-IsStarted_example =
    start_controller-IsStarted (platform true) 2 (server (dev ∷ prod ∷ []) true) (fresh true)
      (start_controller (platform true) 2 (server (dev ∷ prod ∷ []) true) (fresh true)).1 refl
