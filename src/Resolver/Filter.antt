-- ===== src/Resolver/Filter.antt =====
-- `filterWorkloadForSBP` and the two maps that filter expressions are evaluated in.
use kubestellar_workload_sta.Base.{
  Bool, true, false, ◌||◌, Option, none, some, List, [], ◌∷◌, Str, codes, Eq, ◌==◌, str_eq,
  ℕ_discrete, if◌then◌else◌,
}
use kubestellar_workload_sta.Base.Dict.{Dict}
use kubestellar_workload_sta.Api.{
  Kinds, Expression, ClusterScopeDownsyncClause, NamespaceScopeDownsyncClause,
  DownsyncObjectClauses, ObjectIdentifier,
}
use kubestellar_workload_sta.Cluster.{Cluster, strings}
use kubestellar_workload_sta.Cel.{test_expression}

identifier_dec : Discrete ObjectIdentifier
identifier_dec = hlevel ℕ_discrete

instance unfoldable pub identifier_eq : Eq ObjectIdentifier
unfolding identifier_dec ℕ_discrete
identifier_eq = record { dec = identifier_dec }

-- `sets.Set[util.ObjectIdentifier]`: a list that holds no value twice.
abbrev pub member : ObjectIdentifier → List ObjectIdentifier → Bool
member x [] = false
member x (y ∷ ys) = x == y || member x ys

abbrev pub set_insert : ObjectIdentifier → List ObjectIdentifier → List ObjectIdentifier
set_insert x set = if member x set then set else x ∷ set

unfoldable pub cluster_clause_map : ClusterScopeDownsyncClause → Dict Str Str
cluster_clause_map c =
    (codes "group", c.group)
    ∷ (codes "version", c.version)
    ∷ (codes "resource", c.resource)
    ∷ (codes "name", c.name)
    ∷ (codes "resourceVersion", c.resource_version)
    ∷ []

-- The value of "group" is the clause's version, as in the source.
unfoldable pub namespace_clause_map : NamespaceScopeDownsyncClause → Dict Str Str
namespace_clause_map c =
    (codes "group", c.version)
    ∷ (codes "version", c.version)
    ∷ (codes "resource", c.resource)
    ∷ (codes "name", c.name)
    ∷ (codes "namespace", c.namespace)
    ∷ (codes "resourceVersion", c.resource_version)
    ∷ []

unfoldable pub cluster_identifier : ClusterScopeDownsyncClause → ObjectIdentifier
cluster_identifier c = record {
  group = c.group;
  version = [];
  kind = c.resource;
  resource = c.resource;
  namespace = [];
  name = c.name;
}

unfoldable pub namespace_identifier : NamespaceScopeDownsyncClause → ObjectIdentifier
namespace_identifier c = record {
  group = c.group;
  version = [];
  kind = c.resource;
  resource = c.resource;
  namespace = c.namespace;
  name = c.name;
}

module _ {K : Kinds} (C : Cluster K) where
  -- `expression == nil`, or the expression tests true on the clause.
  unfoldable pub selects : Option Expression → Dict Str Str → Bool
  selects none clause = true
  selects (some e) clause = test_expression C e ((codes "downsyncClause", strings clause) ∷ [])

  unfoldable pub filter_cluster_scope :
      Option Expression
      → List ClusterScopeDownsyncClause
      → List ObjectIdentifier
      → List ObjectIdentifier
  filter_cluster_scope e [] filtered = filtered
  filter_cluster_scope e (c ∷ cs) filtered = filter_cluster_scope e cs (
      if selects e (cluster_clause_map c)
      then set_insert (cluster_identifier c) filtered
      else filtered)

  unfoldable pub filter_namespace_scope :
      Option Expression
      → List NamespaceScopeDownsyncClause
      → List ObjectIdentifier
      → List ObjectIdentifier
  filter_namespace_scope e [] filtered = filtered
  filter_namespace_scope e (c ∷ cs) filtered = filter_namespace_scope e cs (
      if selects e (namespace_clause_map c)
      then set_insert (namespace_identifier c) filtered
      else filtered)

  unfoldable pub filter_workload : DownsyncObjectClauses → Option Expression → List ObjectIdentifier
  unfolding filter_cluster_scope filter_namespace_scope
  filter_workload workload e =
      filter_namespace_scope e workload.namespace_scope
        (filter_cluster_scope e workload.cluster_scope [])
