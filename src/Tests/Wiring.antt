-- ===== src/Tests/Wiring.antt =====
-- The theorem on the wiring of NewController at a concrete configuration.
use kubestellar_workload_sta.Base.{◌≡◌, refl, Str, str_eq, nat_eq}
use kubestellar_workload_sta.Cluster.{Result, ok}
use kubestellar_workload_sta.Clientset.Rest.{Config}
use kubestellar_workload_sta.Clientset.{
  Clientset, new_for_config, with_rate_limiter, new_for_config_and_client,
}
use kubestellar_workload_sta.Clientset.Community
use kubestellar_workload_sta.Clientset.Laws.{IsMade}
use kubestellar_workload_sta.Controller.Wiring.{wire, new_wired, IsWired, new_wired-IsWired}
use kubestellar_workload_sta.Tests.Clientset.{types, config, clientset, library as rest}
use kubestellar_workload_sta.Tests.Resource.{library}

-- A clientset counts as its user agent.
abbrev as_interface : Clientset types → Str
as_interface c = c.discovery_client

-- The clientset of KubeStellar counts as the configuration.
abbrev new_ks_client : Config types → Result types.Error (Config types)
new_ks_client config = ok config

new_wired-IsWired_example :
    (client : Clientset types) × IsMade rest config client
    × IsWired library rest as_interface client (wire library rest as_interface clientset)
    × ((ks_client : Config types) × (new_ks_client config ≡ ok ks_client))
unfolding new_wired new_for_config new_for_config_and_client with_rate_limiter
    Community.new_for_config_and_client str_eq Community.set_config_defaults
new_wired-IsWired_example =
    new_wired-IsWired library rest as_interface new_ks_client config
      (wire library rest as_interface clientset) refl
