-- ===== src/Resolver/Fulfilled.antt =====
-- When the condition of a stage counts as satisfied, in terms of the objects that the filter selects,
-- the combined statuses in the cache and the expressions alone.
pub mod Statuses
use kubestellar_workload_sta.Base.{
  ◌≡◌, ◌≢◌, ◌↔◌, refl, ◌⊎◌, inl, inr, Option, none, some, true, false, List, [], ◌∷◌, Str, codes,
  str_eq, arith, In, length, ◌<◌, get_elem?, leb, Option-cases, Bool, ap, ◌∙◌, if◌then◌else◌,
  get_elem?-some, lt_of_get_elem?,
}
use mathlib.Core.Option.{none-ne-some, some-injective}
use kubestellar_workload_sta.Base.Dict.{lookup}
use kubestellar_workload_sta.Run.{done, panicked, nil_dereference}
use kubestellar_workload_sta.Strings.{contains, stage_name}
use kubestellar_workload_sta.Api.{Kinds, Expression, Stage, ObjectIdentifier}
use kubestellar_workload_sta.Cluster.{Cluster, Result, ok, err, unstructured}
use kubestellar_workload_sta.Cel.{test_expression}
use kubestellar_workload_sta.Resolver.{PolicyData, State}
use kubestellar_workload_sta.Resolver.Filter.{filter_workload}
use kubestellar_workload_sta.Resolver.Ensure.{stage_up}
use kubestellar_workload_sta.Resolver.Condition.{
  Verdict, satisfied, stopped, nil_requirement, status_selector, serialize_relevant, check_object,
  check_objects, attempt_stage, attempt_condition,
}
use Statuses.{
  IsSatisfiedBy, check_object_sound, check_objects-satisfied, check_objects-of_all,
  check_object_complete,
}

-- `range` visits exactly the elements of a set, in some order.
abbrev pub RangesAll : {K : Kinds} → Cluster K → Type 0
RangesAll C =
    (objs : List ObjectIdentifier) (obj : ObjectIdentifier)
    → In obj (C.range_identifiers objs) ↔ In obj objs

module _ {K : Kinds} (C : Cluster K) where
  -- The active stage of the policy is fulfilled: it has a condition, its filter selects some object,
  -- and each object that it selects has a combined status for the active BindingPolicy that
  -- satisfies the condition.
  abbrev pub IsFulfilled : Str → State C → Type 0
  IsFulfilled name s =
      (d : PolicyData K) × (stage : Stage K) × (condition : Expression) × (lookup name s.policies
        ≡ some d)
      × (get_elem? d.stages d.active_index ≡ some stage)
      × (stage.condition ≡ some condition)
      × (filter_workload C d.binding_spec.workload stage.filter_expression ≢ [])
      × ((obj : ObjectIdentifier)
          → In obj (filter_workload C d.binding_spec.workload stage.filter_expression)
          → (cs : C.CombinedStatus) × IsSatisfiedBy C s.server (stage_name name stage.name)
              d.active_binding_policy_uid condition obj cs)

  -- What the code has tested by the time that it calls `stage_up`.
  abbrev Tested : Str → State C → PolicyData K → Stage K → Expression → Type 0
  Tested name s d stage condition =
      (lookup name s.policies ≡ some d)
      × (get_elem? d.stages d.active_index ≡ some stage)
      × (stage.condition ≡ some condition)
      × (filter_workload C d.binding_spec.workload stage.filter_expression ≢ [])
      × (check_objects C s.server (stage_name name stage.name) d.active_binding_policy_uid condition
            (C.range_identifiers
              (filter_workload C d.binding_spec.workload stage.filter_expression))
          ≡ satisfied)

  attempt-Tested :
      (name : Str) (s : State C) (d : PolicyData K) (stage : Stage K) (condition : Expression)
      → Tested name s d stage condition
      → attempt_condition C name s ≡ stage_up C name s
  unfolding attempt_condition attempt_stage
  attempt-Tested name s d stage condition t =
      ground (arith, lt_of_get_elem? d.stages d.active_index t.1)

  module _ (name : Str) (s : State C) where
    abbrev Parts : Type 0
    Parts =
        (d : PolicyData K) × (stage : Stage K) × (condition : Expression) × Tested name s d stage
          condition

    attempt_parts :
        (attempt_condition C name s ≡ done tt s)
        ⊎ ((attempt_condition C name s ≡ panicked nil_dereference s) ⊎ Parts)
    unfolding attempt_condition attempt_stage
    attempt_parts = at_entry (lookup name s.policies) refl
      where
        Cases : Type 0
        Cases =
            (attempt_condition C name s ≡ done tt s)
            ⊎ ((attempt_condition C name s ≡ panicked nil_dereference s) ⊎ Parts)

        at_verdict :
            (d : PolicyData K)
            → lookup name s.policies ≡ some d
            → (stage : Stage K) → get_elem? d.stages d.active_index ≡ some stage
            → (condition : Expression) → stage.condition ≡ some condition
            → filter_workload C d.binding_spec.workload stage.filter_expression ≢ []
            → (v : Verdict)
            → check_objects C s.server
                (stage_name name stage.name)
                d.active_binding_policy_uid
                condition
                (C.range_identifiers
                  (filter_workload C d.binding_spec.workload stage.filter_expression))
              ≡ v
            → Cases
        at_verdict d e stage g condition c n satisfied v =
            inr (inr (d, stage, condition, (e, g, c, n, v)))
        at_verdict d e stage g condition c n stopped v = inl (ground arith)
        at_verdict d e stage g condition c n nil_requirement v =
            inr (inl (ground (arith, lt_of_get_elem? d.stages d.active_index g)))

        at_objects :
            (d : PolicyData K)
            → lookup name s.policies ≡ some d
            → (stage : Stage K) → get_elem? d.stages d.active_index ≡ some stage
            → (condition : Expression) → stage.condition ≡ some condition
            → (objs : List ObjectIdentifier)
            → filter_workload C d.binding_spec.workload stage.filter_expression ≡ objs
            → Cases
        at_objects d e stage g condition c [] f = inl (ground arith)
        at_objects d e stage g condition c (x ∷ objs) f =
            at_verdict d e stage g condition c (λ q. ground arith) _ refl

        at_stage :
            (d : PolicyData K)
            → lookup name s.policies ≡ some d
            → (stage : Stage K) → get_elem? d.stages d.active_index ≡ some stage
            → (c : Option Expression) → stage.condition ≡ c
            → Cases
        at_stage d e stage g none c = inl (ground arith)
        at_stage d e stage g (some condition) c = at_objects d e stage g condition c _ refl

        at_index :
            (d : PolicyData K)
            → lookup name s.policies ≡ some d
            → (o : Option (Stage K)) → get_elem? d.stages d.active_index ≡ o
            → Cases
        at_index d e none g = inl (ground (arith, get_elem?-some d.stages d.active_index))
        at_index d e (some stage) g = at_stage d e stage g _ refl

        at_entry : (o : Option (PolicyData K)) → lookup name s.policies ≡ o → Cases
        at_entry none e = inl (ground arith)
        at_entry (some d) e = at_index d e _ refl

module _ {K : Kinds} (C : Cluster K) (ranges : RangesAll C) (name : Str) (s : State C) where
  Parts-IsFulfilled :
      Parts C name s → (attempt_condition C name s ≡ stage_up C name s) × IsFulfilled C name s
  Parts-IsFulfilled (d, stage, condition, t) = (
    attempt-Tested C name s d stage condition t,
    (
      d,
      stage,
      condition,
      t.0,
      t.1,
      t.2,
      t.3,
      λ obj i.
          check_object_sound C s.server (stage_name name stage.name) d.active_binding_policy_uid
            condition obj
            (check_objects-satisfied C s.server (stage_name name stage.name)
              d.active_binding_policy_uid condition _ t.4 obj ((ranges _ obj).1 i)),
    ),
  )

  -- What an attempt can be, where `range` visits the elements of a set in some order.
  pub attempt_condition_cases :
      (attempt_condition C name s ≡ done tt s)
      ⊎ ((attempt_condition C name s ≡ panicked nil_dereference s)
          ⊎ ((attempt_condition C name s ≡ stage_up C name s) × IsFulfilled C name s))
  attempt_condition_cases = elim (attempt_parts C name s) [
    | inl e ↦ inl e
    | inr r ↦ elim r [ inl e ↦ inr (inl e) | inr parts ↦ inr (inr (Parts-IsFulfilled parts)) ]
  ]

  -- If `range` visits the elements of a set in some order: an attempt that neither leaves the state
  -- as it is nor panics on a nil requirement is a stage-up, and the active stage is fulfilled.
  pub attempt_condition_sound :
      attempt_condition C name s ≢ done tt s
      → attempt_condition C name s ≢ panicked nil_dereference s
      → (attempt_condition C name s ≡ stage_up C name s) × IsFulfilled C name s
  attempt_condition_sound h k = elim attempt_condition_cases [
    | inl e ↦ absurd (h e)
    | inr r ↦ elim r [ inl e ↦ absurd (k e) | inr parts ↦ parts ]
  ]

  -- No other combined status than the satisfying one has the UID of the active BindingPolicy in its
  -- name, for each object that the filter selects.
  abbrev pub IsUnambiguous : IsFulfilled C name s → Type 0
  IsUnambiguous f =
      (obj : ObjectIdentifier)
      (i : In obj (filter_workload C f.0.binding_spec.workload f.1.filter_expression))
      (cs : C.CombinedStatus)
      → In cs ((f.7 obj i).1.1)
      → contains (C.status_name cs) f.0.active_binding_policy_uid ≡ true
      → cs ≡ (f.7 obj i).0

  -- If `range` visits the elements of a set in some order: where the active stage is fulfilled, and
  -- no second combined status of an object carries the active BindingPolicy's UID in its name, an
  -- attempt is a stage-up, in whatever order the objects are visited.
  pub attempt_condition_complete :
      (f : IsFulfilled C name s) → IsUnambiguous f → attempt_condition C name s ≡ stage_up C name s
  attempt_condition_complete f unique =
      let (d, stage, condition, a, b, c, n, all) = f in
      attempt-Tested C name s d stage condition (
        a,
        b,
        c,
        n,
        check_objects-of_all C s.server (stage_name name stage.name) d.active_binding_policy_uid
            condition _
            λ obj i.
              let i' = (ranges _ obj).0 i in
              let (cs, h) = all obj i' in
              check_object_complete C s.server (stage_name name stage.name)
                d.active_binding_policy_uid condition obj cs h (unique obj i'),
      )
