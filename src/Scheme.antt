-- ===== src/Scheme.antt =====
-- The registration of the API group's types: api/community/v1alpha1/register.go and groupversion_info.go, and
-- the schemes of the clientset and of its fake, scheme/register.go and fake/register.go of
-- pkg/generated/clientset/versioned.
--
-- A scheme is the state. The scheme builder runs functions on a scheme; it is apimachinery's.
use kubestellar_workload_sta.Base.{◌≡◌, refl, ap, Option, none, some, List, [], ◌∷◌, Str, codes}
use kubestellar_workload_sta.Clientset.Rest.{GroupVersion, scheme_group_version}
use kubestellar_workload_sta.Informers.Resource.{GroupResource}

pub record GroupKind : Type 0 where
  pub group : Str
  pub kind : Str

-- `GroupVersion` of groupversion_info.go
abbrev group_version : GroupVersion
group_version = record { group = codes "community.kubestellar.io"; version = codes "v1alpha1" }

-- The two names of the group and version are the same.
group_version-eq : group_version ≡ scheme_group_version
group_version-eq = refl

abbrev group_kind : Str → GroupKind
group_kind kind = record { group = scheme_group_version.group; kind = kind }

abbrev group_resource : Str → GroupResource
group_resource resource = record { group = scheme_group_version.group; resource = resource }

pub record SchemeLibrary : Type 1 where
  pub Scheme : Type 0
  pub Error : Type 0
  pub new_scheme : Scheme
  -- `AddKnownTypes` with the names of the types, and `metav1.AddToGroupVersion`
  pub add_known_types : GroupVersion → List Str → Scheme → Scheme
  pub add_to_group_version : GroupVersion → Scheme → Scheme
  -- `AddToScheme` of a builder
  pub run_builder : List (Scheme → Option Error × Scheme) → Scheme → Option Error × Scheme

module _ (L : SchemeLibrary) where
  -- `addKnownTypes`
  abbrev add_known_types : L.Scheme → Option L.Error × L.Scheme
  add_known_types scheme = (
    none,
    L.add_to_group_version scheme_group_version (
        L.add_known_types scheme_group_version
          (codes "StagedBindingPolicy" ∷ codes "StagedBindingPolicyList" ∷ []) scheme),
  )

  -- `AddToScheme` of the API group
  abbrev api_add_to_scheme : L.Scheme → Option L.Error × L.Scheme
  api_add_to_scheme = L.run_builder (add_known_types ∷ [])

  -- `AddToScheme` of a clientset
  abbrev add_to_scheme : L.Scheme → Option L.Error × L.Scheme
  add_to_scheme = L.run_builder (api_add_to_scheme ∷ [])

  -- `init` of a clientset's scheme; a panic of `utilruntime.Must` is no result.
  abbrev init_scheme : Option L.Scheme
  init_scheme =
      let (e, scheme) =
        add_to_scheme
          (L.add_to_group_version (record { group = []; version = codes "v1" }) L.new_scheme) in
      elim e [ none ↦ some scheme | some _ ↦ none ]

  -- `AddToScheme` and `init` of the fake clientset's scheme
  abbrev fake_add_to_scheme : L.Scheme → Option L.Error × L.Scheme
  fake_add_to_scheme = L.run_builder (api_add_to_scheme ∷ [])

  abbrev fake_init_scheme : Option L.Scheme
  fake_init_scheme =
      let (e, scheme) =
        fake_add_to_scheme
          (L.add_to_group_version (record { group = []; version = codes "v1" }) L.new_scheme) in
      elim e [ none ↦ some scheme | some _ ↦ none ]

  -- A clientset and its fake have the same scheme.
  fake_init_scheme-eq : fake_init_scheme ≡ init_scheme
  fake_init_scheme-eq = refl

  -- What the builder does with one function: it returns its error, and its scheme where there is none.
  RunsOne : Type 0
  RunsOne =
      (f : L.Scheme → Option L.Error × L.Scheme) (scheme scheme' : L.Scheme)
      → f scheme ≡ (none, scheme')
      → L.run_builder (f ∷ []) scheme ≡ (none, scheme')

  -- The clientset's scheme is made without a panic: it is a new one with the version v1 of the core group and
  -- the two types of the API group.
  init_scheme_lem :
      RunsOne
      → init_scheme
        ≡ some
            (add_known_types
              (L.add_to_group_version (record { group = []; version = codes "v1" }) L.new_scheme)).1
  unfolding RunsOne
  init_scheme_lem runs =
      let core =
        L.add_to_group_version (record { group = []; version = codes "v1" }) L.new_scheme in
      let known = (add_known_types core).1 in
      let once = runs add_known_types core known refl in
      let twice = runs api_add_to_scheme core known once in
      ap (λ (r : Option L.Error × L.Scheme). elim r.0 [ none ↦ some r.1 | some _ ↦ none ]) twice
