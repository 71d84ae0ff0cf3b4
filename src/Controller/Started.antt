-- ===== src/Controller/Started.antt =====
-- What `Start` has done when it returns no error, and where it stops when a cache does not sync.
use kubestellar_workload_sta.Base.{ℕ, ◌≡◌, true, false, none, some, [], ◌∷◌, arith}
use kubestellar_workload_sta.Api.{Kinds}
use kubestellar_workload_sta.Cluster.{Cluster, ok, err}
use kubestellar_workload_sta.Resolver.{new_resolver}
use kubestellar_workload_sta.Controller.{WorkQueue}
use kubestellar_workload_sta.Controller.After
use kubestellar_workload_sta.Controller.Events.{on_binding, on_policy, on_combined_status}
use kubestellar_workload_sta.Controller.Start.{
  Platform, Process, is_ok, not_synced, declarations, binding_informer, combined_status_informer,
  policy_informer, setup_binding_informer, setup_combined_status_informer, setup_policy_informer,
  new_cel_evaluator, start_controller,
}

module _ {K : Kinds} {C : Cluster K} {W : WorkQueue} (P : Platform C W) where
  -- The handlers are registered before the KubeStellar factory is started.
  pub record IsPrepared (w : P.World) : Type 0 where
    pub binding_handler : (P.add_binding_handler (on_binding C W) w).0 ≡ none
    pub combined_status_handler :
        (P.add_combined_status_handler (on_combined_status C W) (After.binding_handler P w)).0
        ≡ none
    pub policy_handler :
        (P.add_policy_handler (on_policy C W) (After.combined_status_handler P w)).0 ≡ none
    pub environment : is_ok (P.new_env declarations) ≡ true

  -- Then the KubeStellar caches are in sync before this repository's factory is started, and its cache
  -- before the workers run.
  pub record IsStarted (w : P.World) : Type 0 where
    pub prepared : IsPrepared w
    pub ks_synced :
        (P.wait_for_cache_sync
          (binding_informer ∷ combined_status_informer ∷ [])
          (After.ks_start P w)).0
        ≡ true
    pub sbp_synced : (P.wait_for_cache_sync (policy_informer ∷ []) (After.sbp_start P w)).0 ≡ true

  -- Where the KubeStellar caches do not sync, after all before went well, `Start` returns that error, with
  -- the resolver set and the world as the wait left it: this repository's factory is not started, and no
  -- worker runs.
  start_controller_unsynced :
      (workers : ℕ) (server : C.Server) (p : Process P)
      → IsPrepared p.world
      → (P.wait_for_cache_sync
          (binding_informer ∷ combined_status_informer ∷ [])
          (After.ks_start P p.world)).0
        ≡ false
      → start_controller P workers server p ≡ (
        err (not_synced "failed to wait for KubeStellar informers to sync"),
        record { resolver = some (new_resolver C server); world = After.ks_sync P p.world },
      )
  unfolding start_controller setup_binding_informer setup_combined_status_informer
      setup_policy_informer new_cel_evaluator
  start_controller_unsynced workers server p prepared unsynced = ground (
    arith, prepared.binding_handler, prepared.combined_status_handler, prepared.policy_handler,
    prepared.environment,
  )

  module _ (workers : ℕ) (server : C.Server) (p : Process P) where
    -- Where `Start` returns no error, every handler was registered, the CEL environment was made, the
    -- KubeStellar caches were in sync when this repository's factory was started, and its cache was in
    -- sync before the workers.
    pub start_controller-IsStarted :
        (p' : Process P) → start_controller P workers server p ≡ (ok tt, p') → IsStarted p.world
    unfolding start_controller setup_binding_informer setup_combined_status_informer
        setup_policy_informer new_cel_evaluator
    start_controller-IsStarted p' h = record {
      prepared = record {
        binding_handler = ground arith;
        combined_status_handler = ground arith;
        policy_handler = ground arith;
        environment = ground arith;
      };
      ks_synced = ground arith;
      sbp_synced = ground arith;
    }
