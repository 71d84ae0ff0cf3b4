-- ===== src/Controller/After.antt =====
-- The world after each of the calls that `Start` makes, from the one it begins in, where none fails.
use kubestellar_workload_sta.Base.{[], ◌∷◌}
use kubestellar_workload_sta.Api.{Kinds}
use kubestellar_workload_sta.Cluster.{Cluster}
use kubestellar_workload_sta.Controller.{WorkQueue}
use kubestellar_workload_sta.Controller.Events.{on_binding, on_policy, on_combined_status}
use kubestellar_workload_sta.Controller.Start.{Platform, binding_informer, combined_status_informer}

module _ {K : Kinds} {C : Cluster K} {W : WorkQueue} (P : Platform C W) where
  abbrev pub binding_handler : P.World → P.World
  binding_handler w = (P.add_binding_handler (on_binding C W) w).1

  abbrev pub combined_status_handler : P.World → P.World
  combined_status_handler w =
      (P.add_combined_status_handler (on_combined_status C W) (binding_handler w)).1

  abbrev pub policy_handler : P.World → P.World
  policy_handler w = (P.add_policy_handler (on_policy C W) (combined_status_handler w)).1

  abbrev pub ks_start : P.World → P.World
  ks_start w = P.ks_informer_factory_start (policy_handler w)

  abbrev pub ks_sync : P.World → P.World
  ks_sync w =
      (P.wait_for_cache_sync (binding_informer ∷ combined_status_informer ∷ []) (ks_start w)).1

  abbrev pub sbp_start : P.World → P.World
  sbp_start w = P.sbp_informer_factory_start (ks_sync w)
