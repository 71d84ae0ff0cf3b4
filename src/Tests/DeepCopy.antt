-- ===== src/Tests/DeepCopy.antt =====
-- Deep copies of a list with one policy, whose stage has one selector and one expression cell for both its
-- filter and its condition.
use kubestellar_workload_sta.Base.{◌≡◌, refl, none, some, List, [], ◌∷◌, Str, codes}
use kubestellar_workload_sta.DeepCopy.{
  Foreign, Memory, Stage, StagedBindingPolicy, StagedBindingPolicyList, policy_list,
  list_deep_copy_object, deep_copy, list_deep_copy_into, policy_deep_copy_into, spec_deep_copy_into,
  stage_deep_copy_into, copy_pointer, copy_elements,
}
use kubestellar_workload_sta.DeepCopy.Laws.{list_deep_copy_object_lem}
use kubestellar_workload_sta.DeepCopy.Views.{IsFaithful, ListValue, list_view, Keeps}

-- Objects of other modules, by a text that stands for them.
abbrev foreign : Foreign
foreign = record {
  LabelSelector = Str;
  DownsyncPolicyClause = Str;
  ObjectMeta = Str;
  ListMeta = Str;
  TypeMeta = Str;
  copy_label_selector = λ s. s;
  copy_downsync_clause = λ c. c;
  copy_object_meta = λ o. o;
  copy_list_meta = λ l. l;
}

foreign-IsFaithful : IsFaithful foreign
foreign-IsFaithful = record {
  label_selector = λ s. refl;
  downsync_clause = λ c. refl;
  object_meta = λ o. refl;
  list_meta = λ l. refl;
}

abbrev stage : Stage
stage = record {
  name = codes "dev";
  cluster_selectors = some 0;
  filter_expression = some 0;
  condition = some 0;
}

abbrev policy : StagedBindingPolicy foreign
policy = record {
  type_meta = codes "StagedBindingPolicy";
  metadata = codes "web";
  spec = record { downsync = none; stages = some 0 };
  status = record { active_stage = codes "dev" };
}

abbrev list : StagedBindingPolicyList foreign
list = record { type_meta = codes "StagedBindingPolicyList"; list_meta = codes ""; items = some 0 }

abbrev selectors : List Str
selectors = codes "env=dev" ∷ []

abbrev memory : Memory foreign
memory = record {
  expressions = codes "true" ∷ [];
  selectors = selectors ∷ [];
  clauses = [];
  stages = (stage ∷ []) ∷ [];
  policies = (policy ∷ []) ∷ [];
}

abbrev value : ListValue foreign
value = record {
  type_meta = codes "StagedBindingPolicyList";
  list_meta = codes "";
  items = some (
      record {
        type_meta = codes "StagedBindingPolicy";
        metadata = codes "web";
        spec = record {
          downsync = none;
          stages = some (
              record {
                name = codes "dev";
                cluster_selectors = some selectors;
                filter_expression = some (codes "true");
                condition = some (codes "true");
              }
              ∷ []);
        };
        active_stage = codes "dev";
      }
      ∷ []);
}

memory-Reads : (list_view foreign).Reads memory list value
memory-Reads = (
  refl,
  refl,
  (
    policy ∷ [],
    refl,
    (
      (
        refl,
        refl,
        refl,
        (
          tt,
          (
            stage ∷ [],
            refl,
            (
              (
                refl,
                (selectors, refl, (refl, tt)),
                (codes "true", refl, refl),
                (codes "true", refl, refl),
              ),
              tt,
            ),
          ),
        ),
      ),
      tt,
    ),
  ),
)

-- The expression that the stage's two pointers shared is in two cells of the copy, and the copy's list, policy
-- and stage are in the second cells.
copied :
    list_deep_copy_object foreign (some list) memory
    ≡ some (
      some (policy_list (record list { items = some 1 })),
      record {
        expressions = codes "true" ∷ codes "true" ∷ codes "true" ∷ [];
        selectors = selectors ∷ selectors ∷ [];
        clauses = [];
        stages =
            (stage ∷ [])
            ∷ (record stage {
              cluster_selectors = some 1;
              filter_expression = some 1;
              condition = some 2;
            }
                ∷ [])
            ∷ [];
        policies =
            (policy ∷ [])
            ∷ (record policy { spec = record { downsync = none; stages = some 1 } } ∷ [])
            ∷ [];
      },
    )
unfolding list_deep_copy_object deep_copy list_deep_copy_into policy_deep_copy_into
    spec_deep_copy_into stage_deep_copy_into copy_pointer copy_elements
copied = refl

list_deep_copy_object_lem_example :
    (list' : StagedBindingPolicyList foreign) × (m' : Memory foreign) × (list_deep_copy_object
        foreign
        (some list)
        memory
      ≡ some (some (policy_list list'), m'))
    × (list_view foreign).Reads m' list' value
    × (list_view foreign).IsFresh memory m' list'
    × Keeps foreign memory m'
    × (list_view foreign).Reads m' list value
list_deep_copy_object_lem_example =
    list_deep_copy_object_lem foreign-IsFaithful memory list value memory-Reads
