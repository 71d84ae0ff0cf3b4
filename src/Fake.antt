-- ===== src/Fake.antt =====
-- pkg/generated/clientset/versioned/typed/community/v1alpha1/fake/fake_stagedbindingpolicy.go: the methods of the
-- fake client. Each gives an action of client-go's testing package to the fake's reactions, which change
-- their world and answer with an object, an error or both; a type assertion on another object panics.
pub mod Matching
pub mod Simple
pub mod Community
use kubestellar_workload_sta.Base.{
  Bool, Option, none, some, List, [], ◌∷◌, ◌++◌, Str, codes, if◌then◌else◌,
}
use kubestellar_workload_sta.Base.Dict.{Dict}
use kubestellar_workload_sta.Run.{Run, done, panicked, interface_conversion}
use kubestellar_workload_sta.Api.{Kinds, StagedBindingPolicy}
use kubestellar_workload_sta.Client.{
  Options, Method, get, list, watch, create, update, update_status, delete, delete_collection,
  patch,
}
use kubestellar_workload_sta.Clientset.Rest.{scheme_group_version}
use kubestellar_workload_sta.Informers.Resource.{GroupVersionResource, policy_resource}

pub record GroupVersionKind : Type 0 where
  pub group : Str
  pub version : Str
  pub kind : Str

abbrev pub policy_kind : GroupVersionKind
policy_kind = record {
  group = scheme_group_version.group;
  version = scheme_group_version.version;
  kind = codes "StagedBindingPolicy";
}

module _ (K : Kinds) where
  pub record PolicyList (ListMeta : Type 0) : Type 0 where
    pub list_meta : ListMeta
    pub items : List (StagedBindingPolicy K)

  -- What is behind a `runtime.Object` that is not nil.
  pub data Object (ListMeta Other : Type 0) : Type 0 where
    policy_object : StagedBindingPolicy K → Object ListMeta Other
    list_object : PolicyList ListMeta → Object ListMeta Other
    other_object : Other → Object ListMeta Other

  abbrev pub empty_policy : StagedBindingPolicy K
  empty_policy = record {
    metadata = record { name = []; uid = []; generation = 0; labels = []; owner_references = [] };
    spec = record { downsync = []; stages = [] };
    status = record { active_stage = [] };
  }

module _ (K : Kinds) (O : Options) where
  -- The constructors of actions, with their arguments.
  pub data FakeAction : Type 0 where
    root_get : GroupVersionResource → Str → FakeAction
    root_list : GroupVersionResource → GroupVersionKind → O.ListOptions → FakeAction
    root_watch : GroupVersionResource → O.ListOptions → FakeAction
    root_create : GroupVersionResource → StagedBindingPolicy K → FakeAction
    root_update : GroupVersionResource → StagedBindingPolicy K → FakeAction
    root_update_subresource : GroupVersionResource → Str → StagedBindingPolicy K → FakeAction
    root_delete : GroupVersionResource → Str → O.DeleteOptions → FakeAction
    root_delete_collection : GroupVersionResource → O.ListOptions → FakeAction
    root_patch_subresource : GroupVersionResource → Str → O.PatchType → Str → List Str → FakeAction

  -- client-go's `testing.Fake`, and labels.
  pub record FakeLibrary : Type 1 where
    pub World : Type 0
    pub Error : Type 0
    pub ListMeta : Type 0
    pub Other : Type 0
    pub Watch : Type 0
    pub Selector : Type 0
    pub empty_list_meta : ListMeta
    -- `Invokes`, with the object that is returned where no reaction handles the action
    pub invokes :
        FakeAction
        → Object K ListMeta Other
        → World
        → (Option (Object K ListMeta Other) × Option Error) × World
    pub invokes_watch : FakeAction → World → (Option Watch × Option Error) × World
    -- the label selector of `ExtractFromListOptions`
    pub label_of_list_options : O.ListOptions → Option Selector
    pub everything : Selector
    pub matches : Selector → Dict Str Str → Bool

module _ {K : Kinds} {O : Options} (L : FakeLibrary K O) where
  -- The results of a method.
  pub data Answer : Type 0 where
    policy_answer : Option (StagedBindingPolicy K) → Option L.Error → Answer
    list_answer : Option (PolicyList K L.ListMeta) → Option L.Error → Answer
    watch_answer : Option L.Watch → Option L.Error → Answer
    error_answer : Option L.Error → Answer

  -- `Invokes`, the test for nil, and the assertion of a policy.
  unfoldable pub policy_call : FakeAction K O → L.World → Run L.World Answer
  policy_call action w =
      let ((obj, e), w') = L.invokes action (policy_object (empty_policy K)) w in
      elim obj [
        | none ↦ done (policy_answer none e) w'
        | some o ↦ elim o [
          | policy_object p ↦ done (policy_answer (some p) e) w'
          | list_object _ ↦ panicked interface_conversion w'
          | other_object _ ↦ panicked interface_conversion w'
        ]
      ]

  -- The loop of `List` over the items.
  unfoldable pub append_matching :
      L.Selector
      → List (StagedBindingPolicy K)
      → List (StagedBindingPolicy K)
      → List (StagedBindingPolicy K)
  append_matching label [] items = items
  append_matching label (item ∷ rest) items =
      append_matching label rest
        (if L.matches label item.metadata.labels then items ++ item ∷ [] else items)

  abbrev pub selector : O.ListOptions → L.Selector
  selector opts = elim (L.label_of_list_options opts) [ none ↦ L.everything | some label ↦ label ]

  unfoldable pub list_call : O.ListOptions → L.World → Run L.World Answer
  list_call opts w =
      let ((obj, e), w') =
        L.invokes (root_list policy_resource policy_kind opts)
          (list_object (record { list_meta = L.empty_list_meta; items = [] })) w in
      elim obj [
        | none ↦ done (list_answer none e) w'
        | some o ↦ elim o [
          | policy_object _ ↦ panicked interface_conversion w'
          | list_object l ↦
              done
                (list_answer
                  (some (record l { items = append_matching (selector opts) l.items [] })) e)
                w'
          | other_object _ ↦ panicked interface_conversion w'
        ]
      ]

  -- The methods.
  unfoldable pub call : Method K O → L.World → Run L.World Answer
  call (get name options) w = policy_call (root_get policy_resource name) w
  call (list opts) w = list_call opts w
  call (watch opts) w =
      let ((found, e), w') = L.invokes_watch (root_watch policy_resource opts) w in
      done (watch_answer found e) w'
  call (create policy opts) w = policy_call (root_create policy_resource policy) w
  call (update policy opts) w = policy_call (root_update policy_resource policy) w
  call (update_status policy opts) w =
      policy_call (root_update_subresource policy_resource (codes "status") policy) w
  call (delete name opts) w =
      let ((_, e), w') =
        L.invokes (root_delete policy_resource name opts) (policy_object (empty_policy K)) w in
      done (error_answer e) w'
  call (delete_collection opts list_opts) w =
      let ((_, e), w') =
        L.invokes (root_delete_collection policy_resource list_opts)
          (list_object (record { list_meta = L.empty_list_meta; items = [] })) w in
      done (error_answer e) w'
  call (patch name pt contents opts subresources) w =
      policy_call (root_patch_subresource policy_resource name pt contents subresources) w
