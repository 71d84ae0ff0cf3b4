-- ===== src/Controller/New.antt =====
-- controller.go: `NewController` and `makeController`. The clients, factories, informers and listers are
-- those of other modules and of the generated code, the fields of `Constructors`.
use Prim.Native.Nat.{◌*◌}
use kubestellar_workload_sta.Base.{ℕ, ◌++◌, Str, codes}
use kubestellar_workload_sta.Cluster.{Result, ok, err}

pub record Constructors : Type 1 where
  pub Config : Type 0
  pub Error : Type 0
  pub KsClient : Type 0
  pub SbpClient : Type 0
  pub ControlClient : Type 0
  pub CommunityClient : Type 0
  pub KsFactory : Type 0
  pub SbpFactory : Type 0
  pub StartFunction : Type 0
  pub Informer : Type 0
  pub Lister : Type 0
  -- `NewForConfig` of the two clientsets, with the groups that are used
  pub new_ks_client : Config → Result Error KsClient
  pub new_sbp_client : Config → Result Error SbpClient
  pub control_v1alpha1 : KsClient → ControlClient
  pub community_v1alpha1 : SbpClient → CommunityClient
  -- `NewSharedInformerFactory` with a resync period, and `Start` of a factory
  pub new_ks_informer_factory : KsClient → ℕ → KsFactory
  pub new_sbp_informer_factory : SbpClient → ℕ → SbpFactory
  pub ks_start : KsFactory → StartFunction
  pub sbp_start : SbpFactory → StartFunction
  -- `Informer()` and `Lister()` of the three resources
  pub binding_informer : KsFactory → Informer
  pub binding_lister : KsFactory → Lister
  pub combined_status_informer : KsFactory → Informer
  pub combined_status_lister : KsFactory → Lister
  pub policy_informer : SbpFactory → Informer
  pub policy_lister : SbpFactory → Lister

-- The rate limiters of client-go's work queue, with the two that `NewMaxOfRateLimiter` is given here;
-- times are nanoseconds.
pub data RateLimiter : Type 0 where
  max_of : RateLimiter → RateLimiter → RateLimiter
  item_exponential_failure : ℕ → ℕ → RateLimiter
  bucket : ℕ → ℕ → RateLimiter

-- What a rate-limiting queue is made of.
pub record QueueConfig : Type 0 where
  pub rate_limiter : RateLimiter
  pub name : Str

abbrev controller_name : Str
controller_name = codes "StagedBindingPolicyController"

abbrev pub default_resync_period : ℕ
default_resync_period = 0

abbrev millisecond : ℕ
millisecond = 1000000

abbrev second : ℕ
second = 1000000000

abbrev rate_limiter : RateLimiter
rate_limiter = max_of (item_exponential_failure (5 * millisecond) (1000 * second)) (bucket 50 300)

module _ (M : Constructors) where
  -- The fields of the `Controller` that `makeController` sets; its resolver is nil and its queue empty.
  pub record Parts : Type 0 where
    pub wds_name : Str
    pub control_client : M.ControlClient
    pub community_client : M.CommunityClient
    pub ks_informer_factory_start : M.StartFunction
    pub sbp_informer_factory_start : M.StartFunction
    pub binding_informer : M.Informer
    pub binding_lister : M.Lister
    pub combined_status_informer : M.Informer
    pub combined_status_lister : M.Lister
    pub policy_informer : M.Informer
    pub policy_lister : M.Lister
    pub workqueue : QueueConfig

  unfoldable pub make_controller :
      M.ControlClient → M.CommunityClient → M.KsFactory → M.SbpFactory → Str → Parts
  make_controller control_client community_client ks sbp wds_name = record {
    wds_name = wds_name;
    control_client = control_client;
    community_client = community_client;
    ks_informer_factory_start = M.ks_start ks;
    sbp_informer_factory_start = M.sbp_start sbp;
    binding_informer = M.binding_informer ks;
    binding_lister = M.binding_lister ks;
    combined_status_informer = M.combined_status_informer ks;
    combined_status_lister = M.combined_status_lister ks;
    policy_informer = M.policy_informer sbp;
    policy_lister = M.policy_lister sbp;
    workqueue = record {
      rate_limiter = rate_limiter;
      name = controller_name ++ (codes "-" ++ wds_name);
    };
  }

  unfoldable pub new_controller : M.Config → Str → Result M.Error Parts
  unfolding make_controller
  new_controller config wds_name = elim (M.new_ks_client config) [
    | err e ↦ err e
    | ok ks_client ↦ elim (M.new_sbp_client config) [
      | err e ↦ err e
      | ok sbp_client ↦ ok (
          make_controller (M.control_v1alpha1 ks_client) (M.community_v1alpha1 sbp_client)
            (M.new_ks_informer_factory ks_client default_resync_period)
            (M.new_sbp_informer_factory sbp_client default_resync_period) wds_name)
    ]
  ]
