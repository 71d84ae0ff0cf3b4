-- ===== src/Informers/Shared.antt =====
-- A factory has one informer of staged binding policies, by whatever way it is reached.
use kubestellar_workload_sta.Base.{
  ℕ, ◌≡◌, refl, ◌∙◌, ap, none, some, Str, str_eq, nat_eq, arith, List, [], ◌∷◌, ◌==◌, if◌then◌else◌,
}
use kubestellar_workload_sta.Base.Dict.{insert, lookup, lookup-insert}
use kubestellar_workload_sta.Api.{Kinds}
use kubestellar_workload_sta.Client.{Options, request, list, watch}
use kubestellar_workload_sta.Informers.{
  Machinery, Factory, TweakListOptions, informer_for, new_factory, resync_period,
  with_custom_resync_config, with_namespace, with_tweak_list_options,
}
use kubestellar_workload_sta.Informers.Laws.{informer_for_again}
use kubestellar_workload_sta.Informers.Resource.{
  CacheLibrary, StagedBindingPolicyInformer, machinery, informer, lister, for_resource,
  policy_resource, policy_type, tweaked, community, v1alpha1, staged_binding_policies,
  default_informer, new_filtered_policy_informer,
}

-- The period that a list of pairs gives last for a type.
abbrev period_for : Str → ℕ → List (Str × ℕ) → ℕ
period_for type default [] = default
period_for type default ((other, period) ∷ config) =
    period_for type (if type == other then period else default) config

module _ {M : Machinery} where
  resync_period-with_custom_resync_config :
      (type : Str) (config : List (Str × ℕ)) (f : Factory M)
      → resync_period type (with_custom_resync_config config f)
        ≡ period_for type (resync_period type f) config
  unfolding with_custom_resync_config
  resync_period-with_custom_resync_config type [] f = refl
  resync_period-with_custom_resync_config type ((other, period) ∷ config) f =
      let f' = record f { custom_resync = insert other period f.custom_resync } in
      let inserted : resync_period type f'
          ≡ (if type == other then period else resync_period type f) =
        ground (arith, lookup-insert type other period f.custom_resync) in
      resync_period-with_custom_resync_config type config f'
      ∙ ap (λ p. period_for type p config) inserted

  with_custom_resync_config_frame :
      (config : List (Str × ℕ)) (f : Factory M)
      → ((with_custom_resync_config config f).client ≡ f.client)
        × ((with_custom_resync_config config f).informers ≡ f.informers)
  unfolding with_custom_resync_config
  with_custom_resync_config_frame [] f = (refl, refl)
  with_custom_resync_config_frame ((other, period) ∷ config) f =
      with_custom_resync_config_frame config
        (record f { custom_resync = insert other period f.custom_resync })

  informer_for_of_none :
      (type : Str) (new_func : M.Client → ℕ → M.Informer) (f : Factory M)
      → lookup type f.informers ≡ none
      → (informer_for type new_func f).0 ≡ new_func f.client (resync_period type f)
  unfolding informer_for
  informer_for_of_none type new_func f h = ground arith

  -- What a new factory with resync periods, a namespace and list options is.
  new_factory_lem :
      (type : Str) (client : M.Client) (period : ℕ) (config : List (Str × ℕ)) (namespace : Str)
      (tweak : TweakListOptions M.ListOptions)
      → let f = new_factory {M = M} client period (
          with_custom_resync_config config
          ∷ with_namespace namespace
          ∷ with_tweak_list_options tweak
          ∷ []) in
        (f.client ≡ client)
        × (f.tweak_list_options ≡ tweak)
        × (lookup type f.informers ≡ none)
        × (resync_period type f ≡ period_for type period config)
  unfolding new_factory with_namespace with_tweak_list_options lookup
  new_factory_lem type client period config namespace tweak =
      let base : Factory M = new_factory client period [] in
      let frame = with_custom_resync_config_frame config base in
      (
        frame.0,
        refl,
        ap (λ informers. lookup type informers) frame.1,
        resync_period-with_custom_resync_config type config base,
      )

module _ {K : Kinds} {O : Options} (L : CacheLibrary K O) where
  informer_again :
      (i j : StagedBindingPolicyInformer O.ListOptions) (f : Factory (machinery L))
      → informer L j (informer L i f).1 ≡ ((informer L i f).0, (informer L i f).1)
  unfolding informer
  informer_again i j f =
      informer_for_again policy_type (default_informer L i) (default_informer L j) f

  -- Once `Informer` has been called on a factory, `Informer`, `Lister` and `ForResource` of the policies'
  -- resource leave the factory as it is and give the informer of the first call, or a lister of its
  -- indexer, also with other list options; and `Lister` called first makes the informer that `Informer`
  -- would have made.
  pub informer-IsShared :
      (i j : StagedBindingPolicyInformer O.ListOptions) (f : Factory (machinery L))
      → (informer L j (informer L i f).1 ≡ informer L i f)
        × (lister L j (informer L i f).1
            ≡ (L.new_lister (L.get_indexer (informer L i f).0), (informer L i f).1))
        × (lister L i f ≡ (L.new_lister (L.get_indexer (informer L i f).0), (informer L i f).1))
        × (for_resource L policy_resource (informer L i f).1 ≡ (
          some (record {
            informer = (informer L i f).0;
            resource = record {
              group = policy_resource.group;
              resource = policy_resource.resource;
            };
          }),
          (informer L i f).1,
        ))
  unfolding lister for_resource str_eq
  informer-IsShared i j f =
      let again = informer_again i j f in
      let generic =
        informer_again i (staged_binding_policies (v1alpha1 (community L (informer L i f).1))) f in
      (
        again,
        ap (λ r. (L.new_lister (L.get_indexer r.0), r.1)) again,
        refl,
        ap
            (λ r. (
              some (record {
                informer = r.0;
                resource = record {
                  group = policy_resource.group;
                  resource = policy_resource.resource;
                };
              }),
              r.1,
            ))
            generic,
      )

  -- The informer of a factory with resync periods, a namespace and list options lists and watches with the
  -- factory's client, by requests of the typed client whose options the factory's function has changed. It
  -- resyncs at the period that is given last for its type, in the order in which the map of periods is
  -- visited, or else at the factory's default.
  pub informer-new_factory :
      (client : L.Client) (period : ℕ) (config : List (Str × ℕ)) (namespace : Str)
      (tweak : TweakListOptions O.ListOptions)
      → let f = new_factory {M = machinery L} client period (
          with_custom_resync_config config
          ∷ with_namespace namespace
          ∷ with_tweak_list_options tweak
          ∷ []) in
        (informer L (staged_binding_policies (v1alpha1 (community L f))) f).0
        ≡ L.new_shared_index_informer
            (record {
              list_func = λ options. (client, request K O (list (tweaked tweak options)));
              watch_func = λ options. (client, request K O (watch (tweaked tweak options)));
            })
            policy_type
            (period_for policy_type period config)
            L.namespace_indexers
  unfolding informer default_informer new_filtered_policy_informer community
  informer-new_factory client period config namespace tweak =
      let f = new_factory {M = machinery L} client period (
        with_custom_resync_config config
        ∷ with_namespace namespace
        ∷ with_tweak_list_options tweak
        ∷ []) in
      let (c, t, none_yet, p) =
        new_factory_lem {M = machinery L} policy_type client period config namespace tweak in
      let i = staged_binding_policies (v1alpha1 (community L f)) in
      informer_for_of_none policy_type (default_informer L i) f none_yet ∙ rw (c, t, p) refl
