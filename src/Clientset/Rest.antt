-- ===== src/Clientset/Rest.antt =====
-- The configuration of the REST client, and what the constructors of clients call of client-go; the group
-- and version of api/community/v1alpha1/register.go.
--
-- A configuration is copied before it is changed, so it is a value; a pointer that may be nil is an Option.
use kubestellar_workload_sta.Base.{
  ◌≡◌, refl, ℕ, zero, suc, Bool, true, false, Option, [], Str, codes, ◌==◌, str_eq, if◌then◌else◌,
}
use kubestellar_workload_sta.Cluster.{Result, ok, err}

infixl 5 ◌>>=◌
-- `if err != nil { return nil, err }`
abbrev pub ◌>>=◌ : {E A B : Type 0} → Result E A → (A → Result E B) → Result E B
err e >>= f = err e
ok a >>= f = f a

-- Go's `int`, which only the test for a positive one reads.
pub data ℤ : Type 0 where
  pos negsuc : ℕ → ℤ

abbrev pub is_positive : ℤ → Bool
is_positive (pos zero) = false
is_positive (pos (suc n)) = true
is_positive (negsuc n) = false

pub record GroupVersion : Type 0 where
  pub group : Str
  pub version : Str

abbrev group_name : Str
group_name = codes "community.kubestellar.io"

abbrev pub scheme_group_version : GroupVersion
scheme_group_version = record { group = group_name; version = codes "v1alpha1" }

-- The types of client-go and of Go's net/http that the constructors pass on; `Rest` stands for the fields
-- of a configuration that they do not name.
pub record RestTypes : Type 1 where
  pub Error : Type 0
  pub RateLimiter : Type 0
  pub Qps : Type 0
  pub Serializer : Type 0
  pub HttpClient : Type 0
  pub RestClient : Type 0
  pub DiscoveryClient : Type 0
  pub Rest : Type 0

-- `rest.Config`
pub record Config (T : RestTypes) : Type 0 where
  pub user_agent : Str
  pub rate_limiter : Option T.RateLimiter
  pub qps : T.Qps
  pub burst : ℤ
  pub group_version : Option GroupVersion
  pub api_path : Str
  pub negotiated_serializer : Option T.Serializer
  pub rest : T.Rest

-- What the constructors call of client-go, with the test of the float32 `QPS > 0`, and `fmt.Errorf`.
pub record RestLibrary (T : RestTypes) : Type 0 where
  pub qps_is_positive : T.Qps → Bool
  pub default_kubernetes_user_agent : Str
  pub codecs_without_conversion : T.Serializer
  pub errorf : Str → T.Error
  pub http_client_for : Config T → Result T.Error T.HttpClient
  pub new_token_bucket_rate_limiter : T.Qps → ℤ → T.RateLimiter
  pub rest_client_for_config_and_client : Config T → T.HttpClient → Result T.Error T.RestClient
  pub new_discovery_client_for_config_and_client :
      Config T → T.HttpClient → Result T.Error T.DiscoveryClient
  pub new_discovery_client : T.RestClient → T.DiscoveryClient

module _ {T : RestTypes} (L : RestLibrary T) where
  -- `if config.UserAgent == "" { … }`
  abbrev pub with_user_agent : Config T → Config T
  with_user_agent config =
      if config.user_agent == []
      then record config { user_agent = L.default_kubernetes_user_agent }
      else config

-- A chain that ends well has a first call that does, and a rest.
pub >>=-eq_ok :
    {E A B : Type 0} (r : Result E A) {f : A → Result E B} {b : B}
    → (r >>= f) ≡ ok b
    → (a : A) × (r ≡ ok a) × (f a ≡ ok b)
>>=-eq_ok (ok a) h = (a, refl, h)
>>=-eq_ok (err e) h = absurd (cc)
