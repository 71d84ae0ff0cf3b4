-- ===== src/Resolver/Condition.antt =====
-- `attemptConditionLocked`: the objects that the active stage's filter selects, their combined statuses,
-- and the condition.
use kubestellar_workload_sta.Base.{
  true, false, Option, none, some, List, [], ◌∷◌, Str, codes, length, leb, str_eq, if◌then◌else◌,
}
use kubestellar_workload_sta.Base.Dict.{lookup}
use kubestellar_workload_sta.Run.{done, panicked, nil_dereference, Action, index, ◌>>=◌}
use kubestellar_workload_sta.Strings.{contains, stage_name}
use kubestellar_workload_sta.Api.{Kinds, Expression, Stage, ObjectIdentifier}
use kubestellar_workload_sta.Cluster.{Cluster, Result, ok, err, unstructured}
use kubestellar_workload_sta.Cel.{test_expression}
use kubestellar_workload_sta.Resolver.{PolicyData, State}
use kubestellar_workload_sta.Resolver.Filter.{filter_workload}
use kubestellar_workload_sta.Resolver.Ensure.{stage_up}

abbrev pub label_binding_policy : Str
label_binding_policy = codes "status.kubestellar.io/binding-policy"

abbrev pub label_group : Str
label_group = codes "status.kubestellar.io/api-group"

abbrev pub label_resource : Str
label_resource = codes "status.kubestellar.io/resource"

abbrev pub label_name : Str
label_name = codes "status.kubestellar.io/name"

abbrev pub label_namespace : Str
label_namespace = codes "status.kubestellar.io/namespace"

-- What the body of the loop over the objects does: go on, return, or follow a nil pointer.
pub data Verdict : Type 0 where
  satisfied stopped nil_requirement : Verdict

module _ {K : Kinds} (C : Cluster K) where
  abbrev label_equals : Str → Str → Option C.Requirement
  label_equals key value = C.new_requirement key C.equals (value ∷ [])

  abbrev add? : Option C.Selector → Option C.Requirement → Option C.Selector
  add? none r = none
  add? (some sel) none = none
  add? (some sel) (some r) = some (C.add sel r)

  -- The selector, or `none` where one of the requirements is nil and is dereferenced.
  unfoldable pub status_selector : Str → ObjectIdentifier → Option C.Selector
  status_selector binding_name obj =
      add?
        (add?
          (add?
            (add? (add? (some C.new_selector) (label_equals label_group obj.group))
              (label_equals label_resource obj.resource))
            (label_equals label_namespace obj.namespace))
          (label_equals label_name obj.name))
        (label_equals label_binding_policy binding_name)

  -- `serializeObject`, of a combined status
  abbrev serialize_object : C.CombinedStatus → Result C.Error C.Unstructured
  serialize_object cs = C.to_unstructured cs

  -- The loop over the listed statuses: the last one whose name contains the UID counts.
  unfoldable pub serialize_relevant :
      Str → List C.CombinedStatus → Option C.Unstructured → Result C.Error (Option C.Unstructured)
  serialize_relevant uid [] current = ok current
  serialize_relevant uid (cs ∷ rest) current = elim (contains (C.status_name cs) uid) [
    | false ↦ serialize_relevant uid rest current
    | true ↦ elim (serialize_object cs) [
      | err e ↦ err e
      | ok u ↦ serialize_relevant uid rest (some u)
    ]
  ]

  abbrev condition_verdict : Expression → Result C.Error (Option C.Unstructured) → Verdict
  condition_verdict condition (err e) = stopped
  condition_verdict condition (ok none) = stopped
  condition_verdict condition (ok (some u)) =
      if test_expression C condition ((codes "combinedStatus", unstructured u) ∷ [])
      then satisfied
      else stopped

  abbrev statuses_verdict : Str → Expression → Result C.Error (List C.CombinedStatus) → Verdict
  statuses_verdict uid condition (err e) = stopped
  statuses_verdict uid condition (ok []) = stopped
  statuses_verdict uid condition (ok (cs ∷ rest)) =
      condition_verdict condition (serialize_relevant uid (cs ∷ rest) none)

  unfoldable pub check_object : C.Server → Str → Str → Expression → ObjectIdentifier → Verdict
  unfolding status_selector serialize_relevant
  check_object server binding_name uid condition obj = elim (status_selector binding_name obj) [
    | none ↦ nil_requirement
    | some selector ↦ statuses_verdict uid condition (C.list_combined_statuses selector server)
  ]

  unfoldable pub check_objects : C.Server → Str → Str → Expression → List ObjectIdentifier → Verdict
  check_objects server binding_name uid condition [] = satisfied
  check_objects server binding_name uid condition (obj ∷ objs) =
      let rest = check_objects server binding_name uid condition objs in
      elim (check_object server binding_name uid condition obj) [
        | satisfied ↦ rest
        | stopped ↦ stopped
        | nil_requirement ↦ nil_requirement
      ]

  abbrev attempt_objects :
      Str
      → PolicyData K
      → Stage K
      → Expression
      → List ObjectIdentifier
      → Action (State C) (Unit {0})
  attempt_objects name d stage condition [] s = done tt s
  attempt_objects name d stage condition (obj ∷ objs) s =
      elim (check_objects s.server (stage_name name stage.name) d.active_binding_policy_uid
        condition (C.range_identifiers (obj ∷ objs))) [
          | satisfied ↦ stage_up C name s
          | stopped ↦ done tt s
          | nil_requirement ↦ panicked nil_dereference s
        ]

  unfoldable pub attempt_stage : Str → PolicyData K → Stage K → Action (State C) (Unit {0})
  attempt_stage name d stage s = elim stage.condition [
    | none ↦ done tt s
    | some condition ↦
        attempt_objects name d stage condition
          (filter_workload C d.binding_spec.workload stage.filter_expression) s
  ]

  unfoldable pub attempt_condition : Str → Action (State C) (Unit {0})
  attempt_condition name s = elim (lookup name s.policies) [
    | none ↦ done tt s
    | some d ↦
        if leb (length d.stages) d.active_index
        then done tt s
        else (do stage ← index d.stages d.active_index; attempt_stage name d stage) s
  ]
