-- ===== src/Controller/Wiring.antt =====
-- controller.go: NewController's use of the generated clientset and informers (Clientset, Informers.Resource),
-- from the configuration to the informer and the lister of staged binding policies. The factory is a state
-- here: `sbpInformerFactory.Start` is called once makeController has asked for both.
use kubestellar_workload_sta.Base.{◌≡◌, refl, inl, inr, [], ◌∷◌, str_eq, nat_eq, arith}
use kubestellar_workload_sta.Base.Dict.{lookup, insert}
use kubestellar_workload_sta.Api.{Kinds}
use kubestellar_workload_sta.Cluster.{Result, ok, err, Result-cases}
use kubestellar_workload_sta.Client.{Options, request, list, watch}
use kubestellar_workload_sta.Clientset
use kubestellar_workload_sta.Clientset.Laws.{IsMade, new_for_config-IsMade}
use kubestellar_workload_sta.Clientset.Rest.{RestTypes, Config, RestLibrary}
use kubestellar_workload_sta.Informers.{
  Factory, new_factory, new_shared_informer_factory, start, start_all, awaited, informer_for,
}
use kubestellar_workload_sta.Informers.Resource.{
  CacheLibrary, machinery, informer, lister, community, v1alpha1, staged_binding_policies,
  policy_type, default_informer, new_filtered_policy_informer,
}
use kubestellar_workload_sta.Controller.New.{default_resync_period}

module _ {K : Kinds} {O : Options} {T : RestTypes} (L : CacheLibrary K O) (R : RestLibrary T)
    (as_interface : Clientset.Clientset T → L.Client) where
  -- The controller's informer and lister of staged binding policies, with the factory that its start function
  -- is a method of.
  pub record Wired : Type 0 where
    pub informer : L.Informer
    pub lister : L.Lister
    pub factory : Factory (machinery L)

  -- The client is given to the factory as an interface.
  unfoldable pub wire : Clientset.Clientset T → Wired
  wire client =
      let f =
        new_shared_informer_factory {M = machinery L} (as_interface client) default_resync_period in
      let policies = staged_binding_policies (v1alpha1 (community L f)) in
      let (shared, f1) = informer L policies f in
      let (policy_lister, f2) = lister L policies f1 in
      record { informer = shared; lister = policy_lister; factory = f2 }

  -- The informer lists and watches all policies with the client, and does not resync; the lister reads the
  -- cache of that informer; and it is the one informer that Start of the factory runs and that a wait for
  -- the factory's caches waits for.
  pub record IsWired (client : Clientset.Clientset T) (w : Wired) : Type 0 where
    pub watches :
        w.informer
        ≡ L.new_shared_index_informer
            (record {
              list_func = λ options. (as_interface client, request K O (list options));
              watch_func = λ options. (as_interface client, request K O (watch options));
            })
            policy_type
            0
            L.namespace_indexers
    pub reads : w.lister ≡ L.new_lister (L.get_indexer w.informer)
    pub runs : (start w.factory).running ≡ policy_type ∷ []
    pub awaits :
        awaited (start w.factory).informers (start w.factory).started_informers
        ≡ (policy_type, w.informer) ∷ []

  wire-IsWired : (client : Clientset.Clientset T) → IsWired client (wire client)
  unfolding wire informer lister community informer_for new_factory default_informer
      new_filtered_policy_informer start start_all awaited lookup insert str_eq nat_eq
  wire-IsWired client = record { watches = refl; reads = refl; runs = refl; awaits = refl }

module _ {K : Kinds} {O : Options} {T : RestTypes} (L : CacheLibrary K O) (R : RestLibrary T)
    (as_interface : Clientset.Clientset T → L.Client) {KsClient : Type 0}
    (new_ks_client : Config T → Result T.Error KsClient) where
  -- The clientset of KubeStellar is made first; it goes to the factory of the other informers.
  unfoldable pub new_wired : Config T → Result T.Error (Wired L R as_interface)
  new_wired config = elim (new_ks_client config) [
    | err e ↦ err e
    | ok _ ↦ elim (Clientset.new_for_config R config) [
      | err e ↦ err e
      | ok client ↦ ok (wire L R as_interface client)
    ]
  ]

  -- Where NewController returns no error, both clientsets were made from the configuration, its informer lists
  -- and watches the policies with the one of this repository, its lister reads that informer's cache, and that
  -- informer is the one that the factory's Start runs and that the wait for its caches waits for.
  pub new_wired-IsWired :
      (config : Config T) (w : Wired L R as_interface)
      → new_wired config ≡ ok w
      → (client : Clientset.Clientset T) × IsMade R config client
        × IsWired L R as_interface client w
        × ((ks_client : KsClient) × (new_ks_client config ≡ ok ks_client))
  unfolding new_wired
  new_wired-IsWired config w h = elim (Result-cases (new_ks_client config)) [
    | inl (e, q) ↦ absurd (ground arith)
    | inr (ks_client, k) ↦ elim (Result-cases (Clientset.new_for_config R config)) [
      | inl (e, q) ↦ absurd (ground arith)
      | inr (client, q) ↦
          let same : w ≡ wire L R as_interface client = ground arith in
          (
            client,
            (new_for_config-IsMade R config client).0 q,
            rw same (wire-IsWired L R as_interface client),
            (ks_client, k),
          )
    ]
  ]
