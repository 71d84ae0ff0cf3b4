-- ===== src/Api.antt =====
-- api/community/v1alpha1/types.go, and the external API objects that the controller reads and builds.
--
-- Of the objects of other modules (metav1, kubestellar's control/v1alpha1 and pkg/util) a record
-- holds the fields that this repository names; what it only passes on is a type of `Kinds`.
use kubestellar_workload_sta.Base.{ℕ, Option, List, Str}
use kubestellar_workload_sta.Base.Dict.{Dict}

-- Types of other modules whose values the controller passes on without looking inside.
pub record Kinds : Type 1 where
  pub LabelSelector : Type 0
  pub DownsyncPolicyClause : Type 0

-- A CEL expression: `type Expression string`.
abbrev pub Expression : Type 0
Expression = Str

pub record OwnerReference : Type 0 where
  pub api_version : Str
  pub kind : Str
  pub name : Str
  pub uid : Str

pub record ObjectMeta : Type 0 where
  pub name : Str
  pub uid : Str
  pub generation : ℕ
  pub labels : Dict Str Str
  pub owner_references : List OwnerReference

pub record Stage (K : Kinds) : Type 0 where
  pub name : Str
  pub cluster_selectors : List K.LabelSelector
  pub filter_expression : Option Expression
  pub condition : Option Expression

pub record StagedBindingPolicySpec (K : Kinds) : Type 0 where
  pub downsync : List K.DownsyncPolicyClause
  pub stages : List (Stage K)

pub record StagedBindingPolicyStatus : Type 0 where
  pub active_stage : Str

pub record StagedBindingPolicy (K : Kinds) : Type 0 where
  pub metadata : ObjectMeta
  pub spec : StagedBindingPolicySpec K
  pub status : StagedBindingPolicyStatus

pub record ClusterScopeDownsyncClause : Type 0 where
  pub group : Str
  pub version : Str
  pub resource : Str
  pub name : Str
  pub resource_version : Str

pub record NamespaceScopeDownsyncClause : Type 0 where
  pub group : Str
  pub version : Str
  pub resource : Str
  pub name : Str
  pub namespace : Str
  pub resource_version : Str

pub record DownsyncObjectClauses : Type 0 where
  pub cluster_scope : List ClusterScopeDownsyncClause
  pub namespace_scope : List NamespaceScopeDownsyncClause

pub record BindingSpec : Type 0 where
  pub workload : DownsyncObjectClauses

pub record Binding : Type 0 where
  pub metadata : ObjectMeta
  pub spec : BindingSpec

pub record BindingPolicySpec (K : Kinds) : Type 0 where
  pub downsync : List K.DownsyncPolicyClause
  pub cluster_selectors : List K.LabelSelector

-- The metadata of a BindingPolicy that is to be created has a name and owners only.
pub record BindingPolicy (K : Kinds) : Type 0 where
  pub name : Str
  pub owner_references : List OwnerReference
  pub spec : BindingPolicySpec K

-- `util.ObjectIdentifier`, flattened: the GroupVersionKind, the resource and the object's name.
pub record ObjectIdentifier : Type 0 where
  pub group : Str
  pub version : Str
  pub kind : Str
  pub resource : Str
  pub namespace : Str
  pub name : Str
