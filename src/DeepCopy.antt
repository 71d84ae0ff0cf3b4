-- ===== src/DeepCopy.antt =====
-- api/community/v1alpha1/zz_generated.deepcopy.go: deep copies, on a memory of cells.
--
-- A pointer or a slice is nil or the address of a cell, an index into the cells of its type; memory only
-- grows. A slice that is not nil points to its backing array. A copy of an array is stored once its
-- elements are copied; Go makes it first, which gives the same cells, since arrays that are nested in one
-- another have different types. Objects of other modules are values, with their `DeepCopyInto` a field of
-- `Foreign`.

pub mod Copier
pub mod Laws
pub mod Parts
pub mod Views
use kubestellar_workload_sta.Base.{
  ℕ, Option, none, some, List, [], ◌∷◌, ◌++◌, Str, length, get_elem?,
}

pub record Foreign : Type 1 where
  pub LabelSelector : Type 0
  pub DownsyncPolicyClause : Type 0
  pub ObjectMeta : Type 0
  pub ListMeta : Type 0
  pub TypeMeta : Type 0
  pub copy_label_selector : LabelSelector → LabelSelector
  pub copy_downsync_clause : DownsyncPolicyClause → DownsyncPolicyClause
  pub copy_object_meta : ObjectMeta → ObjectMeta
  pub copy_list_meta : ListMeta → ListMeta

abbrev pub Address : Type 0
Address = Option ℕ

pub record Stage : Type 0 where
  pub name : Str
  pub cluster_selectors : Address
  pub filter_expression : Address
  pub condition : Address

pub record StagedBindingPolicySpec : Type 0 where
  pub downsync : Address
  pub stages : Address

pub record StagedBindingPolicyStatus : Type 0 where
  pub active_stage : Str

module _ (F : Foreign) where
  pub record StagedBindingPolicy : Type 0 where
    pub type_meta : F.TypeMeta
    pub metadata : F.ObjectMeta
    pub spec : StagedBindingPolicySpec
    pub status : StagedBindingPolicyStatus

  pub record StagedBindingPolicyList : Type 0 where
    pub type_meta : F.TypeMeta
    pub list_meta : F.ListMeta
    pub items : Address

  -- The cells of each type.
  pub record Memory : Type 0 where
    pub expressions : List Str
    pub selectors : List (List F.LabelSelector)
    pub clauses : List (List F.DownsyncPolicyClause)
    pub stages : List (List Stage)
    pub policies : List (List StagedBindingPolicy)

-- A computation on the memory; `none` is a read through an address that holds no cell.
abbrev pub Copy : Type 0 → Type 0 → Type 0
Copy M A = M → Option (A × M)

infixl 5 ◌>>=◌
abbrev pub ◌>>=◌ : {M A B : Type 0} → Copy M A → (A → Copy M B) → Copy M B
◌>>=◌ c f m = elim (c m) [ none ↦ none | some (a, m') ↦ f a m' ]

abbrev pub pure : {M A : Type 0} → A → Copy M A
pure a m = some (a, m)

-- The cells of one type in a memory, and a memory with one more.
pub record Region (M A : Type 0) : Type 0 where
  pub cells : M → List A
  pub push : A → M → M

module _ {M A : Type 0} (R : Region M A) where
  abbrev load : ℕ → Copy M A
  load p m = elim (get_elem? (R.cells m) p) [ none ↦ none | some a ↦ some (a, m) ]

  abbrev store : A → Copy M Address
  store a m = some (some (length (R.cells m)), R.push a m)

  -- `if in != nil { *out = new(T); **out = copy of **in }`
  unfoldable pub copy_pointer : (A → Copy M A) → Address → Copy M Address
  copy_pointer copy none = pure none
  copy_pointer copy (some p) = do a ← load p; a' ← copy a; store a'

-- The loop over the elements of an array.
unfoldable pub copy_elements : {M A : Type 0} → (A → Copy M A) → List A → Copy M (List A)
copy_elements copy [] = pure []
copy_elements copy (a ∷ rest) = do a' ← copy a; rest' ← copy_elements copy rest; pure (a' ∷ rest')

module _ (F : Foreign) where
  abbrev pub expression_region : Region (Memory F) Str
  expression_region = record {
    cells = λ m. m.expressions;
    push = λ a m. record m { expressions = m.expressions ++ a ∷ [] };
  }

  abbrev pub selector_region : Region (Memory F) (List F.LabelSelector)
  selector_region = record {
    cells = λ m. m.selectors;
    push = λ a m. record m { selectors = m.selectors ++ a ∷ [] };
  }

  abbrev pub clause_region : Region (Memory F) (List F.DownsyncPolicyClause)
  clause_region = record {
    cells = λ m. m.clauses;
    push = λ a m. record m { clauses = m.clauses ++ a ∷ [] };
  }

  abbrev pub stage_region : Region (Memory F) (List Stage)
  stage_region = record {
    cells = λ m. m.stages;
    push = λ a m. record m { stages = m.stages ++ a ∷ [] };
  }

  abbrev pub policy_region : Region (Memory F) (List (StagedBindingPolicy F))
  policy_region = record {
    cells = λ m. m.policies;
    push = λ a m. record m { policies = m.policies ++ a ∷ [] };
  }

  abbrev pub copy_expression : Address → Copy (Memory F) Address
  copy_expression = copy_pointer expression_region (λ e. pure e)

  unfoldable pub stage_deep_copy_into : Stage → Copy (Memory F) Stage
  stage_deep_copy_into stage = do
    selectors ←
        copy_pointer selector_region (copy_elements (λ s. pure (F.copy_label_selector s)))
          stage.cluster_selectors
    filter_expression ← copy_expression stage.filter_expression
    condition ← copy_expression stage.condition
    pure (record stage {
      cluster_selectors = selectors;
      filter_expression = filter_expression;
      condition = condition;
    })

  unfoldable pub spec_deep_copy_into :
      StagedBindingPolicySpec → Copy (Memory F) StagedBindingPolicySpec
  spec_deep_copy_into spec = do
    downsync ←
        copy_pointer clause_region (copy_elements (λ c. pure (F.copy_downsync_clause c)))
          spec.downsync
    stages ← copy_pointer stage_region (copy_elements stage_deep_copy_into) spec.stages
    pure (record spec { downsync = downsync; stages = stages })

  unfoldable pub status_deep_copy_into :
      StagedBindingPolicyStatus → Copy (Memory F) StagedBindingPolicyStatus
  status_deep_copy_into status = pure status

  unfoldable pub policy_deep_copy_into :
      StagedBindingPolicy F → Copy (Memory F) (StagedBindingPolicy F)
  policy_deep_copy_into policy = do
    spec ← spec_deep_copy_into policy.spec
    pure (record policy { metadata = F.copy_object_meta policy.metadata; spec = spec })

  unfoldable pub list_deep_copy_into :
      StagedBindingPolicyList F → Copy (Memory F) (StagedBindingPolicyList F)
  list_deep_copy_into list = do
    items ← copy_pointer policy_region (copy_elements policy_deep_copy_into) list.items
    pure (record list { list_meta = F.copy_list_meta list.list_meta; items = items })

-- `DeepCopy`: nil for nil, and otherwise a new object that `DeepCopyInto` fills.
unfoldable pub deep_copy : {M A : Type 0} → (A → Copy M A) → Option A → Copy M (Option A)
deep_copy copy_into none = pure none
deep_copy copy_into (some a) = do a' ← copy_into a; pure (some a')

-- The objects of the API group behind `runtime.Object`.
pub data Object (F : Foreign) : Type 0 where
  policy : StagedBindingPolicy F → Object F
  policy_list : StagedBindingPolicyList F → Object F

module _ (F : Foreign) where
  abbrev stage_deep_copy : Option Stage → Copy (Memory F) (Option Stage)
  stage_deep_copy = deep_copy (stage_deep_copy_into F)

  abbrev spec_deep_copy :
      Option StagedBindingPolicySpec → Copy (Memory F) (Option StagedBindingPolicySpec)
  spec_deep_copy = deep_copy (spec_deep_copy_into F)

  abbrev status_deep_copy :
      Option StagedBindingPolicyStatus → Copy (Memory F) (Option StagedBindingPolicyStatus)
  status_deep_copy = deep_copy (status_deep_copy_into F)

  abbrev policy_deep_copy :
      Option (StagedBindingPolicy F) → Copy (Memory F) (Option (StagedBindingPolicy F))
  policy_deep_copy = deep_copy (policy_deep_copy_into F)

  abbrev list_deep_copy :
      Option (StagedBindingPolicyList F) → Copy (Memory F) (Option (StagedBindingPolicyList F))
  list_deep_copy = deep_copy (list_deep_copy_into F)

  unfoldable pub policy_deep_copy_object :
      Option (StagedBindingPolicy F) → Copy (Memory F) (Option (Object F))
  policy_deep_copy_object list = do
    c ← policy_deep_copy list
    elim c [ none ↦ pure none | some c ↦ pure (some (policy c)) ]

  unfoldable pub list_deep_copy_object :
      Option (StagedBindingPolicyList F) → Copy (Memory F) (Option (Object F))
  list_deep_copy_object list = do
    c ← list_deep_copy list
    elim c [ none ↦ pure none | some c ↦ pure (some (policy_list c)) ]
