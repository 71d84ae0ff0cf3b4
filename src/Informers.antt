-- ===== src/Informers.antt =====
-- pkg/generated/informers/externalversions/factory.go: the shared informer factory. A `reflect.Type` is
-- its name. An informer is client-go's; a goroutine that runs one is an entry of `running`.
pub mod Laws
mod Synced
pub mod Resource
pub mod Shared
use kubestellar_workload_sta.Base.{
  ℕ, Bool, true, false, Option, none, some, List, [], ◌∷◌, Str, ◌==◌, str_eq, if◌then◌else◌,
}
use kubestellar_workload_sta.Base.Dict.{Dict, lookup, insert}

-- The clients, list options and informers that a factory is for, and the keys of its maps.
pub record Machinery : Type 1 where
  pub Client : Type 0
  pub ListOptions : Type 0
  pub Informer : Type 0

-- `TweakListOptionsFunc`, a function that may be nil.
abbrev pub TweakListOptions : Type 0 → Type 0
TweakListOptions O = Option (O → O)

pub record Factory (M : Machinery) : Type 0 where
  pub client : M.Client
  pub tweak_list_options : TweakListOptions M.ListOptions
  pub namespace : Str
  pub default_resync : ℕ
  pub custom_resync : Dict Str ℕ
  pub informers : Dict Str M.Informer
  pub started_informers : Dict Str Bool
  pub shutting_down : Bool
  pub running : List Str

abbrev SharedInformerOption : Machinery → Type 0
SharedInformerOption M = Factory M → Factory M

-- A missing key of a map of booleans reads as false.
abbrev pub is_started : Str → Dict Str Bool → Bool
is_started type started = elim (lookup type started) [ none ↦ false | some b ↦ b ]

module _ {M : Machinery} where
  -- `WithCustomResyncConfig`
  unfoldable pub with_custom_resync_config : List (Str × ℕ) → SharedInformerOption M
  with_custom_resync_config [] f = f
  with_custom_resync_config ((type, period) ∷ config) f =
      with_custom_resync_config config
        (record f { custom_resync = insert type period f.custom_resync })

  unfoldable pub with_namespace : Str → SharedInformerOption M
  with_namespace namespace f = record f { namespace = namespace }

  unfoldable pub with_tweak_list_options : TweakListOptions M.ListOptions → SharedInformerOption M
  with_tweak_list_options tweak f = record f { tweak_list_options = tweak }

  abbrev apply_options : List (SharedInformerOption M) → SharedInformerOption M
  apply_options [] f = f
  apply_options (opt ∷ options) f = apply_options options (opt f)

  -- `NewSharedInformerFactoryWithOptions`; all namespaces are "".
  unfoldable pub new_factory : M.Client → ℕ → List (SharedInformerOption M) → Factory M
  new_factory client default_resync options = apply_options options (record {
    client = client;
    tweak_list_options = none;
    namespace = [];
    default_resync = default_resync;
    custom_resync = [];
    informers = [];
    started_informers = [];
    shutting_down = false;
    running = [];
  })

  abbrev pub new_shared_informer_factory : M.Client → ℕ → Factory M
  new_shared_informer_factory client default_resync = new_factory client default_resync []

  abbrev new_filtered_shared_informer_factory :
      M.Client → ℕ → Str → TweakListOptions M.ListOptions → Factory M
  new_filtered_shared_informer_factory client default_resync namespace tweak =
      new_factory client default_resync
        (with_namespace namespace ∷ with_tweak_list_options tweak ∷ [])

  abbrev pub start_one : Str → Factory M → Factory M
  start_one type f = if is_started type f.started_informers then f else record f {
    started_informers = insert type true f.started_informers;
    running = type ∷ f.running;
  }

  -- The loop of `Start`.
  unfoldable pub start_all : Dict Str M.Informer → Factory M → Factory M
  start_all [] f = f
  start_all ((type, informer) ∷ rest) f = start_all rest (start_one type f)

  unfoldable pub start : Factory M → Factory M
  start f = if f.shutting_down then f else start_all f.informers f

  -- `Shutdown`, up to its wait for the goroutines.
  unfoldable pub shutdown : Factory M → Factory M
  shutdown f = record f { shutting_down = true }

  abbrev pub resync_period : Str → Factory M → ℕ
  resync_period type f = elim (lookup type f.custom_resync) [
    | none ↦ f.default_resync
    | some period ↦ period
  ]

  -- `InformerFor`, with the function that makes a new informer from a client and a resync period.
  unfoldable pub informer_for :
      Str → (M.Client → ℕ → M.Informer) → Factory M → M.Informer × Factory M
  informer_for type new_func f = elim (lookup type f.informers) [
    | some informer ↦ (informer, f)
    | none ↦
        let informer = new_func f.client (resync_period type f) in
        (informer, record f { informers = insert type informer f.informers })
  ]

-- The informers whose caches `WaitForCacheSync` waits for.
unfoldable pub awaited : {I : Type 0} → Dict Str I → Dict Str Bool → Dict Str I
awaited [] started = []
awaited ((type, informer) ∷ rest) started =
    let more = awaited rest started in
    if is_started type started then (type, informer) ∷ more else more

-- The loop of `WaitForCacheSync` over the awaited informers; `wait` is client-go's wait for one cache.
unfoldable pub sync_all :
    {I W : Type 0} → (I → W → Bool × W) → Dict Str I → Dict Str Bool → W → Dict Str Bool × W
sync_all wait [] result w = (result, w)
sync_all wait ((type, informer) ∷ rest) result w =
    let (synced, w') = wait informer w in sync_all wait rest (insert type synced result) w'

unfoldable pub wait_for_cache_sync :
    {M : Machinery} {W : Type 0} → (M.Informer → W → Bool × W) → Factory M → W → Dict Str Bool × W
wait_for_cache_sync wait f = sync_all wait (awaited f.informers f.started_informers) []
