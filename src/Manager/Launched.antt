-- ===== src/Manager/Launched.antt =====
-- What has been started by the time that `main` blocks, and where it exits.
use kubestellar_workload_sta.Base.{◌≡◌, none, some, arith}
use kubestellar_workload_sta.Api.{Kinds}
use kubestellar_workload_sta.Cluster.{Cluster, ok}
use kubestellar_workload_sta.Controller.{WorkQueue}
use kubestellar_workload_sta.Controller.New.{Constructors, Parts}
use kubestellar_workload_sta.Controller.Start.{
  Platform, Process, ◌>>=◌, >>=-eq_ok, start_controller,
}
use kubestellar_workload_sta.Controller.Started.{IsStarted, start_controller-IsStarted}
use kubestellar_workload_sta.Manager.{
  Flags, Host, default_flags, workers, or_die, on_world, init, setup_manager, create_controller,
  launch, main_with, main,
}

module _ {K : Kinds} {C : Cluster K} {W : WorkQueue} {P : Platform C W} {M : Constructors}
    (H : Host P M) (server : C.Server) where
  -- The way to the `select {}`: the schemes were set up, the flags parsed, the manager and the controller
  -- made from them, the controller started, and then the manager. A process between two steps is a field.
  pub record IsLaunched (p p' : Process P) : Type 0 where
    pub flags : Flags
    pub mgr : H.Manager
    pub parts : Parts M
    pub after_init : Process P
    pub after_flags : Process P
    pub after_setup : Process P
    pub before_start : Process P
    pub initialised : init H p ≡ (ok tt, after_init)
    pub parsed : H.parse_flags default_flags after_init.world ≡ (some flags, after_flags.world)
    pub set_up : setup_manager H flags after_flags ≡ (ok mgr, after_setup)
    pub created : create_controller H flags after_setup ≡ (ok parts, before_start)
    pub controller_started : IsStarted P before_start.world
    pub manager_started :
        H.manager_start mgr (start_controller P workers server before_start).1.world
        ≡ (none, p'.world)

  launch-IsStarted :
      (mgr : H.Manager) (p p' : Process P)
      → launch H server mgr p ≡ (ok tt, p')
      → IsStarted P p.world
        × (H.manager_start mgr (start_controller P workers server p).1.world ≡ (none, p'.world))
  unfolding launch
  launch-IsStarted mgr p p' h = (
    start_controller-IsStarted P workers server p (start_controller P workers server p).1
        (ground arith),
    ground arith,
  )

  -- Where `main` gets to its `select {}`, the schemes had been set up, the flags parsed, and the manager and
  -- the controller made; the controller was then started without an error, its handlers registered and its
  -- caches in sync, whatever the flags; and only in the world that this left was the manager started, whose
  -- start returned without an error.
  pub main-IsLaunched : (p p' : Process P) → main H server p ≡ (ok tt, p') → IsLaunched p p'
  unfolding main main_with
  main-IsLaunched p p' h =
      let parse = on_world H or_die (H.parse_flags default_flags) in
      let (_, p1, e1, h1) = >>=-eq_ok (init H) (λ _. parse >>= main_with H server) p p' tt h in
      let (flags, p2, e2, h2) = >>=-eq_ok parse (main_with H server) p1 p' tt h1 in
      let (mgr, p3, e3, h3) =
        >>=-eq_ok (setup_manager H flags)
          (λ mgr. create_controller H flags >>= λ _. launch H server mgr) p2 p' tt h2 in
      let (parts, q, e4, h4) =
        >>=-eq_ok (create_controller H flags) (λ _. launch H server mgr) p3 p' tt h3 in
      let (started, manager) = launch-IsStarted mgr q p' h4 in
      record {
        flags = flags;
        mgr = mgr;
        parts = parts;
        after_init = p1;
        after_flags = p2;
        after_setup = p3;
        before_start = q;
        initialised = e1;
        parsed = ground arith;
        set_up = e3;
        created = e4;
        controller_started = started;
        manager_started = manager;
      }
