-- ===== src/Tests/Clientset.antt =====
-- The theorem on NewForConfig at a concrete configuration.
use kubestellar_workload_sta.Base.{ℕ, ◌≡◌, ◌↔◌, true, none, [], Str, codes, str_eq}
use kubestellar_workload_sta.Cluster.{ok}
use kubestellar_workload_sta.Clientset.{Clientset, new_for_config}
use kubestellar_workload_sta.Clientset.Rest.{RestTypes, RestLibrary, Config, ℤ, pos}
use kubestellar_workload_sta.Clientset.Laws.{IsMade, new_for_config-IsMade}

-- A token bucket is its rate and its burst; clients are the user agents and the buckets that they have.
abbrev pub types : RestTypes
types = record {
  Error = Str;
  RateLimiter = ℕ × ℤ;
  Qps = ℕ;
  Serializer = Unit {0};
  HttpClient = Str;
  RestClient = Str × Str;
  DiscoveryClient = Str;
  Rest = Unit {0};
}

abbrev pub library : RestLibrary types
library = record {
  qps_is_positive = λ qps. true;
  default_kubernetes_user_agent = codes "agent";
  codecs_without_conversion = tt;
  errorf = λ message. message;
  http_client_for = λ config. ok config.user_agent;
  new_token_bucket_rate_limiter = λ qps burst. (qps, burst);
  rest_client_for_config_and_client = λ config http_client. ok (config.api_path, http_client);
  new_discovery_client_for_config_and_client = λ config http_client. ok http_client;
  new_discovery_client = λ client. client.1;
}

-- Five requests a second, and ten at once.
abbrev pub config : Config types
config = record {
  user_agent = [];
  rate_limiter = none;
  qps = 5;
  burst = pos 10;
  group_version = none;
  api_path = [];
  negotiated_serializer = none;
  rest = tt;
}

abbrev pub clientset : Clientset types
clientset = record {
  discovery_client = codes "agent";
  community_v1alpha1 = record { rest_client = (codes "/apis", codes "agent") };
}

new_for_config-IsMade_example :
    (new_for_config library config ≡ ok clientset) ↔ IsMade library config clientset
new_for_config-IsMade_example = new_for_config-IsMade library config clientset
