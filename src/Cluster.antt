-- ===== src/Cluster.antt =====
-- What the controller calls and does not implement: the API server behind the typed clients, the
-- informer caches behind the listers, label selectors, the unstructured converter and cel-go. They are
-- the fields of one record, which the other modules take as a parameter.
--
-- `Server` is all state outside the controller. A call of a client takes it and returns it. A lister
-- reads the cache as it stands when a handler runs.
use Prim.Native.String.{String}
use kubestellar_workload_sta.Base.{ℕ, ◌≡◌, ◌⊎◌, inl, inr, refl, Bool, Option, List, Str, codes}
use kubestellar_workload_sta.Base.Dict.{Dict}
use kubestellar_workload_sta.Api.{
  Kinds, Expression, StagedBindingPolicy, Binding, BindingPolicy, ObjectIdentifier,
}

-- The two results `(T, error)` of a Go call, one of which counts.
pub data Result (E A : Type 0) : Type 0 where
  ok : A → Result E A
  err : E → Result E A

-- To split on a result and keep the equation.
pub Result-cases :
    {E A : Type 0} (r : Result E A) → ((e : E) × (r ≡ err e)) ⊎ ((a : A) × (r ≡ ok a))
Result-cases (err e) = inl (e, refl)
Result-cases (ok a) = inr (a, refl)

-- A value of the map that an expression is evaluated in: a map of strings or an unstructured object.
pub data Argument (U : Type 0) : Type 0 where
  strings : Dict Str Str → Argument U
  unstructured : U → Argument U

-- Errors: one of another module, or one that `fmt.Errorf` wraps with `%w` or `%v`.
pub data Failure (E : Type 0) : Type 0 where
  external : E → Failure E
  wrapped : String → Failure E → Failure E

pub record Cluster (K : Kinds) : Type 1 where
  pub Server : Type 0
  -- errors of other modules, with `errors.IsNotFound`
  pub Error : Type 0
  pub is_not_found : Error → Bool
  -- `BindingPolicies()` of the control client; Create echoes the object, of which the UID is read
  pub create_binding_policy : BindingPolicy K → Server → Result Error Str × Server
  pub delete_binding_policy : Str → Server → Option Error × Server
  -- `StagedBindingPolicies()` of the community client
  pub get_policy : Str → Server → Result Error (StagedBindingPolicy K) × Server
  pub update_policy_status : StagedBindingPolicy K → Server → Option Error × Server
  -- combined statuses, with the name, the labels and the converter to a map
  pub CombinedStatus : Type 0
  pub status_name : CombinedStatus → Str
  pub status_generation : CombinedStatus → ℕ
  pub status_labels : CombinedStatus → Dict Str Str
  pub Unstructured : Type 0
  pub to_unstructured : CombinedStatus → Result Error Unstructured
  -- `labels.NewRequirement` returns nil for an invalid key or value
  pub Operator : Type 0
  pub equals : Operator
  pub Requirement : Type 0
  pub new_requirement : Str → Operator → List Str → Option Requirement
  pub Selector : Type 0
  pub new_selector : Selector
  pub add : Selector → Requirement → Selector
  -- the listers over the informer caches
  pub list_combined_statuses : Selector → Server → Result Error (List CombinedStatus)
  -- `indexer.GetByKey` of the StagedBindingPolicy informer, and `errors.NewNotFound`
  pub policy_by_key : Str → Server → Result Error (Option (StagedBindingPolicy K))
  pub new_not_found : Str → Str → Error
  pub cached_binding : Str → Server → Result Error Binding
  pub cached_combined_status : Str → Str → Server → Result Error CombinedStatus
  -- `cache.MetaNamespaceKeyFunc` and `cache.SplitMetaNamespaceKey`
  pub status_key : CombinedStatus → Result Error Str
  pub split_key : Str → Result Error (Str × Str)
  -- cel-go; issues count only if their `Err()` is not nil
  pub Ast : Type 0
  pub Issues : Type 0
  pub issues_err : Issues → Option Error
  pub parse : Expression → Ast × Option Issues
  pub check : Ast → Ast × Option Issues
  pub Program : Type 0
  pub program : Ast → Result Error Program
  pub Val : Type 0
  pub eval : Program → Dict Str (Argument Unstructured) → Result Error Val
  pub type_name : Val → Str
  -- a value whose type is named "bool" holds a Go bool
  pub bool_value : (v : Val) → type_name v ≡ codes "bool" → Bool
  -- the order in which `range` visits a set or the keys of a map, which Go leaves open
  pub range_identifiers : List ObjectIdentifier → List ObjectIdentifier
  pub range_names : List Str → List Str
