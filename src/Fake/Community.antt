-- ===== src/Fake/Community.antt =====
-- pkg/generated/clientset/versioned/typed/community/v1alpha1/fake/fake_community_client.go, and the accessors of
-- the fake clientset. `Pointer` is a pointer to client-go's testing.Fake, which the fake client's methods
-- (Fake) run on; that of a clientset is the address of the clientset.
use kubestellar_workload_sta.Base.{◌≡◌, ◌≢◌, refl, Option, none}
use kubestellar_workload_sta.Api.{Kinds}
use kubestellar_workload_sta.Client.{Options}
use kubestellar_workload_sta.Fake.Simple.{TrackerLibrary, SimpleClientset}

pub record FakeCommunityV1alpha1 (Pointer : Type 0) : Type 0 where
  pub fake : Pointer

pub record FakeStagedBindingPolicies (Pointer : Type 0) : Type 0 where
  pub fake : FakeCommunityV1alpha1 Pointer

-- A `rest.Interface`: nil, or a pointer to a RESTClient, which may be nil itself.
pub data RestInterface (RestClient : Type 0) : Type 0 where
  nil_interface : RestInterface RestClient
  rest_client_pointer : Option RestClient → RestInterface RestClient

module _ {Pointer : Type 0} where
  abbrev pub staged_binding_policies :
      FakeCommunityV1alpha1 Pointer → FakeStagedBindingPolicies Pointer
  staged_binding_policies c = record { fake = c }

  -- A nil pointer in an interface that is not nil.
  abbrev pub rest_client :
      {RestClient : Type 0} → FakeCommunityV1alpha1 Pointer → RestInterface RestClient
  rest_client c = rest_client_pointer none

  -- `CommunityV1alpha1` of the fake clientset at an address
  abbrev pub community_v1alpha1 : Pointer → FakeCommunityV1alpha1 Pointer
  community_v1alpha1 address = record { fake = address }

  -- The client that a fake clientset gives runs on the clientset's own reactions.
  staged_binding_policies-community_v1alpha1 :
      (address : Pointer)
      → (staged_binding_policies (community_v1alpha1 address)).fake.fake ≡ address
  staged_binding_policies-community_v1alpha1 address = refl

  -- The fake's REST client passes a test for nil, though it has none.
  rest_client-ne_nil :
      {RestClient : Type 0} (c : FakeCommunityV1alpha1 Pointer)
      → rest_client {RestClient = RestClient} c ≢ nil_interface
  rest_client-ne_nil c e = cc

module _ {K : Kinds} {O : Options} {L : TrackerLibrary K O} where
  -- `Tracker`
  abbrev tracker : SimpleClientset L → L.Tracker
  tracker c = c.tracker
