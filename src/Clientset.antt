-- ===== src/Clientset.antt =====
-- pkg/generated/clientset/versioned/clientset.go: the clientset. A panic of NewForConfigOrDie is no result.
pub mod Laws
pub mod Rest
pub mod Community
use kubestellar_workload_sta.Base.{
  Bool, true, false, Option, none, some, [], Str, codes, ◌==◌, str_eq, ◌&&◌, if◌then◌else◌,
}
use kubestellar_workload_sta.Cluster.{Result, ok, err}
use Rest.{RestTypes, Config, RestLibrary, ◌>>=◌, is_positive, with_user_agent}
use Community.{CommunityV1alpha1Client}

pub record Clientset (T : RestTypes) : Type 0 where
  pub discovery_client : T.DiscoveryClient
  pub community_v1alpha1 : CommunityV1alpha1Client T

module _ {T : RestTypes} (L : RestLibrary T) where
  abbrev burst_required : Str
  burst_required =
      codes
        "burst is required to be greater than 0 when RateLimiter is not set and QPS is set to greater than 0"

  -- The configuration with a rate limiter where one is asked for.
  unfoldable pub with_rate_limiter : Config T → Result T.Error (Config T)
  with_rate_limiter config = elim config.rate_limiter [
    | some _ ↦ ok config
    | none ↦
        if L.qps_is_positive config.qps
        then if is_positive config.burst
          then ok (record config {
            rate_limiter = some (L.new_token_bucket_rate_limiter config.qps config.burst);
          })
          else err (L.errorf burst_required)
        else ok config
  ]

  unfoldable pub new_for_config_and_client : Config T → T.HttpClient → Result T.Error (Clientset T)
  new_for_config_and_client c http_client = do
    config ← with_rate_limiter c
    community ← Community.new_for_config_and_client L config http_client
    discovery ← L.new_discovery_client_for_config_and_client config http_client
    ok (record { discovery_client = discovery; community_v1alpha1 = community })

  unfoldable pub new_for_config : Config T → Result T.Error (Clientset T)
  new_for_config c = do
    http_client ← L.http_client_for (with_user_agent L c)
    new_for_config_and_client (with_user_agent L c) http_client

  unfoldable pub new_for_config_or_die : Config T → Option (Clientset T)
  new_for_config_or_die c = elim (new_for_config c) [ err _ ↦ none | ok cs ↦ some cs ]

  unfoldable pub new : T.RestClient → Clientset T
  new c = record {
    discovery_client = L.new_discovery_client c;
    community_v1alpha1 = Community.new L c;
  }

  -- `Discovery`, of a receiver that may be nil
  abbrev pub discovery : Option (Clientset T) → Option T.DiscoveryClient
  discovery none = none
  discovery (some c) = some c.discovery_client

  -- `CommunityV1alpha1`
  abbrev pub community : Clientset T → CommunityV1alpha1Client T
  community c = c.community_v1alpha1
