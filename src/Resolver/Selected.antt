-- ===== src/Resolver/Selected.antt =====
-- What `filterWorkloadForSBP` selects, and what a filter can see of a namespaced object.
use kubestellar_workload_sta.Base.{
  ◌≡◌, ◌↔◌, refl, ◌⊎◌, inl, inr, Option, true, List, [], ◌∷◌, Str, arith, In, if◌then◌else◌,
  Bool-cases, Bool, none, some, codes, Option-cases, str_eq,
}
use kubestellar_workload_sta.Api.{
  Kinds, Expression, ClusterScopeDownsyncClause, NamespaceScopeDownsyncClause,
  DownsyncObjectClauses, ObjectIdentifier,
}
use kubestellar_workload_sta.Base.Dict.{Dict}
use kubestellar_workload_sta.Cluster.{Cluster, strings}
use kubestellar_workload_sta.Cel.{test_expression}
use kubestellar_workload_sta.Resolver.Filter.{
  member, set_insert, selects, cluster_clause_map, namespace_clause_map, cluster_identifier,
  namespace_identifier, filter_cluster_scope, filter_namespace_scope, filter_workload,
  identifier_eq,
}

In-member : (x : ObjectIdentifier) (xs : List ObjectIdentifier) → member x xs ≡ true → In x xs
In-member x [] h = absurd (ground arith)
In-member x (y ∷ ys) h = ground (arith, In-member x ys)

In-set_insert :
    (x y : ObjectIdentifier) (xs : List ObjectIdentifier)
    → In x (set_insert y xs) ↔ ((x ≡ y) ⊎ In x xs)
In-set_insert x y xs = elim (Bool-cases (member y xs)) [
  | inl h ↦ rw h (λ i. inr i, elim [ inl e ↦ rw e (In-member y xs h) | inr i ↦ i ])
  | inr h ↦ rw h (λ i. i, λ i. i)
]

-- The loop of `filterWorkloadForSBP`, over either kind of clause.
collect :
    {A : Type 0}
    → (A → Bool)
    → (A → ObjectIdentifier)
    → List A
    → List ObjectIdentifier
    → List ObjectIdentifier
collect selected identify [] acc = acc
collect selected identify (c ∷ cs) acc =
    collect selected identify cs (if selected c then set_insert (identify c) acc else acc)

-- `x` identifies a clause of the list that is selected.
abbrev Identifies :
    {A : Type 0} → (A → Bool) → (A → ObjectIdentifier) → ObjectIdentifier → List A → Type 0
Identifies {A} selected identify x cs = (c : A) × In c cs × (selected c ≡ true) × (x ≡ identify c)

module _ {A : Type 0} (selected : A → Bool) (identify : A → ObjectIdentifier)
    (x : ObjectIdentifier) where
  In-step :
      (c : A) (acc : List ObjectIdentifier)
      → In x (if selected c then set_insert (identify c) acc else acc)
        ↔ (((selected c ≡ true) × (x ≡ identify c)) ⊎ In x acc)
  In-step c acc = elim (Bool-cases (selected c)) [
    | inl h ↦ rw h (
      λ i. elim ((In-set_insert x (identify c) acc).0 i) [ inl e ↦ inl (refl, e) | inr k ↦ inr k ],
      elim [
        | inl (_, e) ↦ (In-set_insert x (identify c) acc).1 (inl e)
        | inr k ↦ (In-set_insert x (identify c) acc).1 (inr k)
      ],
    )
    | inr h ↦ rw h (λ i. inr i, elim [ inl (e, _) ↦ cc | inr k ↦ k ])
  ]

  In-collect :
      (cs : List A) (acc : List ObjectIdentifier)
      → In x (collect selected identify cs acc) ↔ (Identifies selected identify x cs ⊎ In x acc)
  unfolding collect
  In-collect [] acc = (λ i. inr i, elim [ inl (c, i, p, e) ↦ absurd i | inr i ↦ i ])
  In-collect (c ∷ cs) acc = (
    λ i. elim ((In-collect cs _).0 i) [
      | inl (b, k, p, e) ↦ inl (b, inr k, p, e)
      | inr k ↦ elim ((In-step c acc).0 k) [ inl (p, e) ↦ inl (c, inl refl, p, e) | inr m ↦ inr m ]
    ],
    elim [
      | inl (b, inl q, p, e) ↦
          (In-collect cs _).1 (inr ((In-step c acc).1 (inl (rw q at p, rw q at e))))
      | inl (b, inr k, p, e) ↦ (In-collect cs _).1 (inl (b, k, p, e))
      | inr k ↦ (In-collect cs _).1 (inr ((In-step c acc).1 (inr k)))
    ],
  )

module _ {K : Kinds} (C : Cluster K) (e : Option Expression) where
  filter_cluster_scope-eq-collect :
      (cs : List ClusterScopeDownsyncClause) (acc : List ObjectIdentifier)
      → filter_cluster_scope C e cs acc
        ≡ collect (λ c. selects C e (cluster_clause_map c)) cluster_identifier cs acc
  unfolding filter_cluster_scope collect
  filter_cluster_scope-eq-collect [] acc = refl
  filter_cluster_scope-eq-collect (c ∷ cs) acc = filter_cluster_scope-eq-collect cs _

  filter_namespace_scope-eq-collect :
      (cs : List NamespaceScopeDownsyncClause) (acc : List ObjectIdentifier)
      → filter_namespace_scope C e cs acc
        ≡ collect (λ c. selects C e (namespace_clause_map c)) namespace_identifier cs acc
  unfolding filter_namespace_scope collect
  filter_namespace_scope-eq-collect [] acc = refl
  filter_namespace_scope-eq-collect (c ∷ cs) acc = filter_namespace_scope-eq-collect cs _

  In-filter_workload_collected :
      (w : DownsyncObjectClauses) (x : ObjectIdentifier)
      → In x (filter_workload C w e) ↔ (
          Identifies (λ c. selects C e (cluster_clause_map c)) cluster_identifier x w.cluster_scope
          ⊎ Identifies
              (λ c. selects C e (namespace_clause_map c))
              namespace_identifier
              x
              w.namespace_scope)
  unfolding filter_workload
  In-filter_workload_collected w x =
      let inner =
        In-collect (λ c. selects C e (cluster_clause_map c)) cluster_identifier x w.cluster_scope
          [] in
      let outer =
        In-collect (λ c. selects C e (namespace_clause_map c)) namespace_identifier x
          w.namespace_scope
          (collect (λ c. selects C e (cluster_clause_map c)) cluster_identifier w.cluster_scope
            []) in
      rw
        (
          filter_namespace_scope-eq-collect w.namespace_scope,
          filter_cluster_scope-eq-collect w.cluster_scope [],
        )
        (
          λ i. elim (outer.0 i) [
            | inl n ↦ inr n
            | inr k ↦ elim (inner.0 k) [ inl c ↦ inl c | inr m ↦ absurd m ]
          ],
          elim [ inl c ↦ outer.1 (inr (inner.1 (inl c))) | inr n ↦ outer.1 (inl n) ],
        )

  -- The clause is selected: there is no expression, or it tests true where "downsyncClause" is the map.
  abbrev IsSelected : Dict Str Str → Type 0
  IsSelected clause =
      (e ≡ none)
      ⊎ ((expression : Expression) × (e ≡ some expression)
          × (test_expression C expression ((codes "downsyncClause", strings clause) ∷ []) ≡ true))

  selects-IsSelected : (clause : Dict Str Str) → (selects C e clause ≡ true) ↔ IsSelected clause
  unfolding selects
  selects-IsSelected clause = elim (Option-cases e) [
    | inl n ↦ (λ h. inl n, λ h. ground arith)
    | inr (expression, q) ↦ (
      λ h. inr (expression, q, ground arith),
      elim [ inl n ↦ absurd (ground arith) | inr (expression', q', h) ↦ ground arith ],
    )
  ]

  -- An object that a clause of the workload names and that the filter selects, with what the expression is given
  -- of each kind of clause.
  pub data IsFiltered (w : DownsyncObjectClauses) : ObjectIdentifier → Type 0 where
    at_cluster :
        (c : ClusterScopeDownsyncClause)
        → In c w.cluster_scope
        → IsSelected (
            (codes "group", c.group)
            ∷ (codes "version", c.version)
            ∷ (codes "resource", c.resource)
            ∷ (codes "name", c.name)
            ∷ (codes "resourceVersion", c.resource_version)
            ∷ [])
        → IsFiltered w (record {
          group = c.group;
          version = [];
          kind = c.resource;
          resource = c.resource;
          namespace = [];
          name = c.name;
        })
    in_namespace :
        (c : NamespaceScopeDownsyncClause)
        → In c w.namespace_scope
        → IsSelected (
            (codes "group", c.version)
            ∷ (codes "version", c.version)
            ∷ (codes "resource", c.resource)
            ∷ (codes "name", c.name)
            ∷ (codes "namespace", c.namespace)
            ∷ (codes "resourceVersion", c.resource_version)
            ∷ [])
        → IsFiltered w (record {
          group = c.group;
          version = [];
          kind = c.resource;
          resource = c.resource;
          namespace = c.namespace;
          name = c.name;
        })

  IsFiltered-In :
      (w : DownsyncObjectClauses) (x : ObjectIdentifier)
      → IsFiltered w x
      → In x (filter_workload C w e)
  unfolding cluster_clause_map namespace_clause_map cluster_identifier namespace_identifier
  IsFiltered-In w _ (at_cluster c i h) =
      (In-filter_workload_collected w _).1 (inl (c, i, (selects-IsSelected _).1 h, refl))
  IsFiltered-In w _ (in_namespace c i h) =
      (In-filter_workload_collected w _).1 (inr (c, i, (selects-IsSelected _).1 h, refl))

  -- The filter returns exactly the identifiers, by group, resource, namespace and name, of the
  -- clauses of the workload that the expression tests true on, or of all where there is none. The
  -- expression is given the group, the version, the resource, the name and the resource version of
  -- a clause, and the namespace of a namespaced one, but as the group of a namespaced one it is
  -- given the version.
  pub In-filter_workload :
      (w : DownsyncObjectClauses) (x : ObjectIdentifier)
      → In x (filter_workload C w e) ↔ IsFiltered w x
  unfolding cluster_clause_map namespace_clause_map cluster_identifier namespace_identifier
  In-filter_workload w x = (
    λ i. elim ((In-filter_workload_collected w x).0 i) [
      | inl (c, i, h, q) ↦ rw q (at_cluster c i ((selects-IsSelected _).0 h))
      | inr (c, i, h, q) ↦ rw q (in_namespace c i ((selects-IsSelected _).0 h))
    ],
    IsFiltered-In w x,
  )

  -- The filter cannot tell API groups of namespaced objects apart: if it selects a clause, it selects
  -- every namespaced clause of the workload that differs from it in the group alone.
  pub filter_workload_ignores_group :
      (w : DownsyncObjectClauses) (c : NamespaceScopeDownsyncClause) (g : Str)
      → selects C e (namespace_clause_map c) ≡ true
      → In (record c { group = g }) w.namespace_scope
      → In (namespace_identifier (record c { group = g })) (filter_workload C w e)
  unfolding namespace_clause_map
  filter_workload_ignores_group w c g h i =
      (In-filter_workload_collected w _).1 (inr (record c { group = g }, i, h, refl))
