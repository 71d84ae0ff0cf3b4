-- ===== src/Tests/Manager.antt =====
-- The theorem on `main` at a concrete host: every call succeeds and is numbered.
use kubestellar_workload_sta.Base.{refl, true, none, some, [], ◌∷◌, Str, codes}
use kubestellar_workload_sta.Cluster.{ok}
use kubestellar_workload_sta.Controller.New.{Constructors, new_controller}
use kubestellar_workload_sta.Controller.Start.{
  start_controller, setup_binding_informer, setup_combined_status_informer, setup_policy_informer,
  new_cel_evaluator, run,
}
use kubestellar_workload_sta.Manager.{
  Host, main, main_with, init, setup_manager, create_controller, launch,
}
use kubestellar_workload_sta.Manager.Launched.{IsLaunched, main-IsLaunched}
use kubestellar_workload_sta.Tests.Fixture.{Server}
use kubestellar_workload_sta.Tests.Runs.{dev, prod, server}
use kubestellar_workload_sta.Tests.Startup.{platform, fresh}

-- Clients, factories, informers and listers without content.
abbrev constructors : Constructors
constructors = record {
  Config = Str;
  Error = Unit {0};
  KsClient = Str;
  SbpClient = Str;
  ControlClient = Str;
  CommunityClient = Str;
  KsFactory = Str;
  SbpFactory = Str;
  StartFunction = Str;
  Informer = Str;
  Lister = Str;
  new_ks_client = λ config. ok config;
  new_sbp_client = λ config. ok config;
  control_v1alpha1 = λ c. c;
  community_v1alpha1 = λ c. c;
  new_ks_informer_factory = λ c period. c;
  new_sbp_informer_factory = λ c period. c;
  ks_start = λ f. f;
  sbp_start = λ f. f;
  binding_informer = λ f. f;
  binding_lister = λ f. f;
  combined_status_informer = λ f. f;
  combined_status_lister = λ f. f;
  policy_informer = λ f. f;
  policy_lister = λ f. f;
}

abbrev host : Host (platform true) constructors
host = record {
  Error = Unit {0};
  Manager = Unit {0};
  client_go_add_to_scheme = λ w. (none, 21 ∷ w);
  control_add_to_scheme = λ w. (none, 22 ∷ w);
  parse_flags = λ flags w. (some (record flags { enable_leader_election = true }), w);
  get_config_or_die = λ w. (some (codes "config"), w);
  new_manager = λ config options w. (ok tt, 23 ∷ w);
  add_healthz_check = λ mgr name w. (none, 24 ∷ w);
  add_readyz_check = λ mgr name w. (none, 25 ∷ w);
  get_wds_kubeconfig = λ name w. (ok (codes "wds-config", codes "wds1"), 26 ∷ w);
  limit_config = λ w config. config;
  manager_start = λ mgr w. (none, 27 ∷ w);
}

abbrev objects : Server
objects = server (dev ∷ prod ∷ []) true

main-IsLaunched_example : IsLaunched host objects (fresh true) (main host objects (fresh true)).1
unfolding main main_with new_controller start_controller setup_binding_informer
    setup_combined_status_informer setup_policy_informer new_cel_evaluator run init setup_manager
    create_controller launch
main-IsLaunched_example =
    main-IsLaunched host objects (fresh true) (main host objects (fresh true)).1 refl
