-- ===== src/Tests/Resource.antt =====
-- The theorems on the informers of staged binding policies at a concrete factory.
use kubestellar_workload_sta.Base.{ℕ, ◌≡◌, none, some, [], ◌∷◌, Str, codes, str_eq}
use kubestellar_workload_sta.Client.{request, list, watch}
use kubestellar_workload_sta.Informers.{
  Factory, new_factory, with_custom_resync_config, with_namespace, with_tweak_list_options,
}
use kubestellar_workload_sta.Informers.Resource.{
  GroupResource, ListWatch, CacheLibrary, machinery, informer, lister, for_resource,
  policy_resource, policy_type, community, v1alpha1, staged_binding_policies,
}
use kubestellar_workload_sta.Informers.Shared.{informer-IsShared, informer-new_factory}
use kubestellar_workload_sta.Tests.Fixture.{kinds}
use kubestellar_workload_sta.Tests.Client.{options}

-- Clients are texts; an informer is what it is made from, and its own indexer and lister.
abbrev pub library : CacheLibrary kinds options
library = record {
  Client = Str;
  Informer = ListWatch kinds options Str × Str × ℕ;
  Indexers = Unit {0};
  Indexer = ListWatch kinds options Str × Str × ℕ;
  Lister = ListWatch kinds options Str × Str × ℕ;
  GenericLister = (ListWatch kinds options Str × Str × ℕ) × GroupResource;
  namespace_indexers = tt;
  new_shared_index_informer = λ lw type period indexers. (lw, type, period);
  get_indexer = λ i. i;
  new_lister = λ i. i;
  new_generic_lister = λ i resource. (i, resource);
}

-- A function that sets a time-out of 30 seconds.
abbrev tweak : options.ListOptions → options.ListOptions
tweak o = (some 30, o.1)

abbrev factory : Factory (machinery library)
factory = new_factory (codes "client") 10 (
    with_custom_resync_config ((policy_type, 20) ∷ (policy_type, 40) ∷ [])
    ∷ with_namespace []
    ∷ with_tweak_list_options (some tweak)
    ∷ [])

informer-new_factory_example :
    (informer library (staged_binding_policies (v1alpha1 (community library factory))) factory).0
    ≡ (
      record {
        list_func = λ o. (codes "client", request kinds options (list (some 30, o.1)));
        watch_func = λ o. (codes "client", request kinds options (watch (some 30, o.1)));
      },
      policy_type,
      40,
    )
unfolding str_eq
informer-new_factory_example =
    informer-new_factory library (codes "client") 10 ((policy_type, 20) ∷ (policy_type, 40) ∷ []) []
      (some tweak)

informer-IsShared_example :
    (informer library
        (record { tweak_list_options = none })
        (informer library (record { tweak_list_options = some tweak }) factory).1
      ≡ informer library (record { tweak_list_options = some tweak }) factory)
    × (lister library
          (record { tweak_list_options = none })
          (informer library (record { tweak_list_options = some tweak }) factory).1
        ≡ informer library (record { tweak_list_options = some tweak }) factory)
    × (lister library (record { tweak_list_options = some tweak }) factory
        ≡ informer library (record { tweak_list_options = some tweak }) factory)
    × (for_resource library policy_resource
          (informer library (record { tweak_list_options = some tweak }) factory).1
        ≡ (
          some (record {
            informer = (informer library (record { tweak_list_options = some tweak }) factory).0;
            resource = record {
              group = policy_resource.group;
              resource = policy_resource.resource;
            };
          }),
          (informer library (record { tweak_list_options = some tweak }) factory).1,
        ))
informer-IsShared_example =
    informer-IsShared library (record { tweak_list_options = some tweak })
      (record { tweak_list_options = none }) factory
