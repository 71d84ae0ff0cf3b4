-- ===== src/Manager.antt =====
-- cmd/controller-manager/main.go: `init` and `main`, up to the `select {}` that blocks for good. What they
-- call of other modules is the record `Host`; the controller is the one of Controller.New and
-- Controller.Start.
pub mod Launched
use kubestellar_workload_sta.Base.{ℕ, Bool, false, Option, none, some, [], Str, codes}
use kubestellar_workload_sta.Api.{Kinds}
use kubestellar_workload_sta.Cluster.{Cluster, Result, ok, err}
use kubestellar_workload_sta.Controller.{WorkQueue}
use kubestellar_workload_sta.Controller.New.{Constructors, Parts, new_controller}
use kubestellar_workload_sta.Controller.Start.{
  Platform, Process, Step, ◌>>=◌, ◌>>◌, start_controller,
}

-- The flags of the program.
pub record Flags : Type 0 where
  pub metrics_addr : Str
  pub pprof_addr : Str
  pub probe_addr : Str
  pub wds_name : Str
  pub enable_leader_election : Bool

-- The values that `pflag` is given for flags that are not set.
abbrev pub default_flags : Flags
default_flags = record {
  metrics_addr = codes ":8080";
  pprof_addr = codes ":8082";
  probe_addr = codes ":8081";
  wds_name = [];
  enable_leader_election = false;
}

-- `ctrl.Options`, with the fields that are set from flags and constants.
pub record ManagerOptions : Type 0 where
  pub metrics_bind_address : Str
  pub pprof_bind_address : Str
  pub health_probe_bind_address : Str
  pub leader_election : Bool
  pub leader_election_id : Str

abbrev manager_options : Flags → ManagerOptions
manager_options flags = record {
  metrics_bind_address = flags.metrics_addr;
  pprof_bind_address = flags.pprof_addr;
  health_probe_bind_address = flags.probe_addr;
  leader_election = flags.enable_leader_election;
  leader_election_id = codes "placement-stager.community.kubestellar.org";
}

-- How the process ends before the `select {}`: a panic of `utilruntime.Must`, an exit inside `pflag.Parse` or
-- `ctrl.GetConfigOrDie`, or `os.Exit`.
pub data Exit : Type 0 where
  must_panicked : Exit
  died : Exit
  exited : ℕ → Exit

pub record Host {K : Kinds} {C : Cluster K} {W : WorkQueue} (P : Platform C W) (M : Constructors)
    : Type 1 where
  pub Error : Type 0
  pub Manager : Type 0
  -- `AddToScheme` of client-go and of KubeStellar's control/v1alpha1
  pub client_go_add_to_scheme : P.World → Option Error × P.World
  pub control_add_to_scheme : P.World → Option Error × P.World
  -- `pflag.Parse`, from the default values; it returns nothing where it exits
  pub parse_flags : Flags → P.World → Option Flags × P.World
  -- `ctrl.GetConfigOrDie`, which returns nothing where it exits
  pub get_config_or_die : P.World → Option M.Config × P.World
  pub new_manager : M.Config → ManagerOptions → P.World → Result Error Manager × P.World
  pub add_healthz_check : Manager → Str → P.World → Option Error × P.World
  pub add_readyz_check : Manager → Str → P.World → Option Error × P.World
  -- `util.GetWDSKubeconfig`, with the name that it settles on, and `LimitConfig` of the client
  -- limits, which are flags too
  pub get_wds_kubeconfig : Str → P.World → Result Error (M.Config × Str) × P.World
  pub limit_config : P.World → M.Config → M.Config
  -- `mgr.Start(ctrl.SetupSignalHandler())`: it elects a leader, and returns once a signal has come
  pub manager_start : Manager → P.World → Option Error × P.World

-- The number of workers.
abbrev pub workers : ℕ
workers = 4

abbrev must : {E : Type 0} → Option E → Result Exit (Unit {0})
must none = ok tt
must (some e) = err must_panicked

abbrev pub or_die : {A : Type 0} → Option A → Result Exit A
or_die none = err died
or_die (some a) = ok a

-- `if err != nil { os.Exit(1) }`
abbrev or_exit : {E A : Type 0} → Result E A → Result Exit A
or_exit (ok a) = ok a
or_exit (err e) = err (exited 1)

abbrev exit_on : {E : Type 0} → Option E → Result Exit (Unit {0})
exit_on none = ok tt
exit_on (some e) = err (exited 1)

module _ {K : Kinds} {C : Cluster K} {W : WorkQueue} {P : Platform C W} {M : Constructors}
    (H : Host P M) where
  abbrev Main : Type 0 → Type 0
  Main A = Step (Process P) Exit A

  -- A call that changes the world, with what `main` does about its result.
  abbrev pub on_world : {R A : Type 0} → (R → Result Exit A) → (P.World → R × P.World) → Main A
  on_world then_do call p = let (r, w) = call p.world in (then_do r, record p { world = w })

  unfoldable pub init : Main (Unit {0})
  init = on_world must H.client_go_add_to_scheme >> on_world must H.control_add_to_scheme

  unfoldable pub setup_manager : Flags → Main H.Manager
  setup_manager flags = do
    config ← on_world or_die H.get_config_or_die
    mgr ← on_world or_exit (H.new_manager config (manager_options flags))
    on_world exit_on (H.add_healthz_check mgr (codes "healthz"))
    on_world exit_on (H.add_readyz_check mgr (codes "readyz"))
    λ p. (ok mgr, p)

  -- From the configuration of the WDS to the controller.
  unfoldable pub create_controller : Flags → Main (Parts M)
  unfolding new_controller
  create_controller flags = do
    wds ← on_world or_exit (H.get_wds_kubeconfig flags.wds_name)
    λ p. (or_exit (new_controller M (H.limit_config p.world wds.0) wds.1), p)

  -- The controller is started, then the manager; `main` blocks after that.
  unfoldable pub launch : C.Server → H.Manager → Main (Unit {0})
  launch server mgr =
      (λ p. let (r, p') = start_controller P workers server p in (or_exit r, p'))
      >> on_world exit_on (H.manager_start mgr)

  unfoldable pub main_with : C.Server → Flags → Main (Unit {0})
  unfolding setup_manager create_controller launch
  main_with server flags = do
    mgr ← setup_manager flags
    _ ← create_controller flags
    launch server mgr

  unfoldable pub main : C.Server → Main (Unit {0})
  unfolding init main_with
  main server = do
    init
    flags ← on_world or_die (H.parse_flags default_flags)
    main_with server flags
