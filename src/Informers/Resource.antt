-- ===== src/Informers/Resource.antt =====
-- pkg/generated/informers/externalversions/community/interface.go, its v1alpha1/interface.go and
-- v1alpha1/stagedbindingpolicy.go, generic.go, and the method Community of factory.go: the way from a
-- factory to the informer and the lister of the staged binding policies.
--
-- The factory is the state. An informer lists and watches by requests of the typed client (Client), which
-- it sends with the factory's client.
use kubestellar_workload_sta.Base.{
  ℕ, Bool, Option, none, some, Str, codes, ◌==◌, str_eq, ◌&&◌, if◌then◌else◌,
}
use kubestellar_workload_sta.Api.{Kinds}
use kubestellar_workload_sta.Client.{Options, Request, request, list, watch}
use kubestellar_workload_sta.Clientset.Rest.{scheme_group_version}
use kubestellar_workload_sta.Informers.{Machinery, TweakListOptions, Factory, informer_for}

pub record GroupResource : Type 0 where
  pub group : Str
  pub resource : Str

pub record GroupVersionResource : Type 0 where
  pub group : Str
  pub version : Str
  pub resource : Str

abbrev same_resource : GroupVersionResource → GroupVersionResource → Bool
same_resource a b = a.group == b.group && a.version == b.version && a.resource == b.resource

module _ (K : Kinds) (O : Options) where
  -- `cache.ListWatch`: the client and the request of a call of each function.
  pub record ListWatch (Client : Type 0) : Type 0 where
    pub list_func : O.ListOptions → Client × Request K O
    pub watch_func : O.ListOptions → Client × Request K O

  -- What the constructors call of client-go's cache. An informer is of the type whose name it is given.
  pub record CacheLibrary : Type 1 where
    pub Client : Type 0
    pub Informer : Type 0
    pub Indexers : Type 0
    pub Indexer : Type 0
    pub Lister : Type 0
    pub GenericLister : Type 0
    pub namespace_indexers : Indexers
    pub new_shared_index_informer : ListWatch Client → Str → ℕ → Indexers → Informer
    pub get_indexer : Informer → Indexer
    pub new_lister : Indexer → Lister
    pub new_generic_lister : Indexer → GroupResource → GenericLister

abbrev pub tweaked : {A : Type 0} → TweakListOptions A → A → A
tweaked none options = options
tweaked (some tweak) options = tweak options

-- `group`, `version` and `stagedBindingPolicyInformer`, without the factory.
pub record Group (A : Type 0) : Type 0 where
  pub namespace : Str
  pub tweak_list_options : TweakListOptions A

pub record Version (A : Type 0) : Type 0 where
  pub namespace : Str
  pub tweak_list_options : TweakListOptions A

pub record StagedBindingPolicyInformer (A : Type 0) : Type 0 where
  pub tweak_list_options : TweakListOptions A

pub record GenericInformer (I : Type 0) : Type 0 where
  pub informer : I
  pub resource : GroupResource

abbrev pub v1alpha1 : {A : Type 0} → Group A → Version A
v1alpha1 g = record { namespace = g.namespace; tweak_list_options = g.tweak_list_options }

abbrev pub staged_binding_policies : {A : Type 0} → Version A → StagedBindingPolicyInformer A
staged_binding_policies v = record { tweak_list_options = v.tweak_list_options }

abbrev pub policy_type : Str
policy_type = codes "StagedBindingPolicy"

abbrev pub policy_resource : GroupVersionResource
policy_resource = record {
  group = scheme_group_version.group;
  version = scheme_group_version.version;
  resource = codes "stagedbindingpolicies";
}

module _ {K : Kinds} {O : Options} (L : CacheLibrary K O) where
  abbrev pub machinery : Machinery
  machinery = record { Client = L.Client; ListOptions = O.ListOptions; Informer = L.Informer }

  unfoldable pub new_filtered_policy_informer :
      L.Client → ℕ → L.Indexers → TweakListOptions O.ListOptions → L.Informer
  new_filtered_policy_informer client resync_period indexers tweak =
      L.new_shared_index_informer
        (record {
          list_func = λ options. (client, request K O (list (tweaked tweak options)));
          watch_func = λ options. (client, request K O (watch (tweaked tweak options)));
        })
        policy_type resync_period indexers

  unfoldable pub new_policy_informer : L.Client → ℕ → L.Indexers → L.Informer
  new_policy_informer client resync_period indexers =
      new_filtered_policy_informer client resync_period indexers none

  unfoldable pub default_informer :
      StagedBindingPolicyInformer O.ListOptions → L.Client → ℕ → L.Informer
  default_informer i client resync_period =
      new_filtered_policy_informer client resync_period L.namespace_indexers i.tweak_list_options

  unfoldable pub informer :
      StagedBindingPolicyInformer O.ListOptions → Factory machinery → L.Informer × Factory machinery
  informer i = informer_for policy_type (default_informer i)

  unfoldable pub lister :
      StagedBindingPolicyInformer O.ListOptions → Factory machinery → L.Lister × Factory machinery
  lister i f = let (shared, f') = informer i f in (L.new_lister (L.get_indexer shared), f')

  unfoldable pub community : Factory machinery → Group O.ListOptions
  community f = record { namespace = f.namespace; tweak_list_options = f.tweak_list_options }

  -- `ForResource`, with no informer for another resource.
  unfoldable pub for_resource :
      GroupVersionResource
      → Factory machinery
      → Option (GenericInformer L.Informer) × Factory machinery
  for_resource resource f =
      if same_resource resource policy_resource
      then (let (shared, f') = informer (staged_binding_policies (v1alpha1 (community f))) f in
          (
            some (record {
              informer = shared;
              resource = record { group = resource.group; resource = resource.resource };
            }),
            f',
          ))
      else (none, f)

  unfoldable pub generic_lister : GenericInformer L.Informer → L.GenericLister
  generic_lister g = L.new_generic_lister (L.get_indexer g.informer) g.resource
