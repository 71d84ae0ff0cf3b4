-- ===== src/Clientset/Community.antt =====
-- pkg/generated/clientset/versioned/typed/community/v1alpha1/community_client.go: the client of the group.
-- A panic of NewForConfigOrDie is no result.
use kubestellar_workload_sta.Base.{Option, none, some, codes}
use kubestellar_workload_sta.Cluster.{Result, ok, err}
use kubestellar_workload_sta.Clientset.Rest.{
  RestTypes, Config, RestLibrary, ◌>>=◌, scheme_group_version, with_user_agent,
}

pub record CommunityV1alpha1Client (T : RestTypes) : Type 0 where
  pub rest_client : T.RestClient

module _ {T : RestTypes} (L : RestLibrary T) where
  -- `setConfigDefaults`, which returns no error
  unfoldable pub set_config_defaults : Config T → Config T
  set_config_defaults config = with_user_agent L (record config {
    group_version = some scheme_group_version;
    api_path = codes "/apis";
    negotiated_serializer = some L.codecs_without_conversion;
  })

  unfoldable pub new_for_config_and_client :
      Config T → T.HttpClient → Result T.Error (CommunityV1alpha1Client T)
  new_for_config_and_client config http_client = do
    client ← L.rest_client_for_config_and_client (set_config_defaults config) http_client
    ok (record { rest_client = client })

  unfoldable pub new_for_config : Config T → Result T.Error (CommunityV1alpha1Client T)
  new_for_config config = do
    http_client ← L.http_client_for (set_config_defaults config)
    new_for_config_and_client (set_config_defaults config) http_client

  unfoldable pub new_for_config_or_die : Config T → Option (CommunityV1alpha1Client T)
  new_for_config_or_die config = elim (new_for_config config) [
    | err _ ↦ none
    | ok client ↦ some client
  ]

  abbrev pub new : T.RestClient → CommunityV1alpha1Client T
  new client = record { rest_client = client }

  -- `RESTClient`, of a receiver that may be nil
  abbrev pub rest_client : Option (CommunityV1alpha1Client T) → Option T.RestClient
  rest_client none = none
  rest_client (some client) = some client.rest_client

-- `stagedBindingPolicies` of stagedbindingpolicy.go, which Client is about
pub record StagedBindingPolicies (T : RestTypes) : Type 0 where
  pub client : Option T.RestClient

module _ {T : RestTypes} (L : RestLibrary T) where
  abbrev new_staged_binding_policies : Option (CommunityV1alpha1Client T) → StagedBindingPolicies T
  new_staged_binding_policies c = record { client = rest_client L c }

  -- `StagedBindingPolicies`
  abbrev pub staged_binding_policies : Option (CommunityV1alpha1Client T) → StagedBindingPolicies T
  staged_binding_policies c = new_staged_binding_policies c
