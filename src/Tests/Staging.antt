-- ===== src/Tests/Staging.antt =====
-- The theorems on conditions and stages, on the cluster in memory.
use kubestellar_workload_sta.Base.{
  ℕ, ◌≡◌, ◌≢◌, refl, inl, inr, ap, Option, none, some, true, List, [], ◌∷◌, Str, codes, str_eq,
  arith, ◌⊎◌,
}
use kubestellar_workload_sta.Base.Dict.{lookup, insert}
use kubestellar_workload_sta.Run.{Run, done, panicked, index_out_of_range, nil_dereference}
use kubestellar_workload_sta.Api.{Stage, ObjectIdentifier}
use kubestellar_workload_sta.Resolver.{PolicyData, State}
use kubestellar_workload_sta.Resolver.Filter.{filter_workload}
use kubestellar_workload_sta.Resolver.Ensure.{stage_up}
use kubestellar_workload_sta.Resolver.Condition.{
  attempt_condition, status_selector, label_binding_policy, label_group, label_resource, label_name,
  label_namespace,
}
use kubestellar_workload_sta.Resolver.Staging.{settle, rollout, stage_up-rollout}
use kubestellar_workload_sta.Resolver.Fulfilled.{
  RangesAll, IsFulfilled, IsUnambiguous, attempt_condition_sound,
}
use kubestellar_workload_sta.Resolver.Progress.{attempt_condition_next, attempt_condition_last}
use kubestellar_workload_sta.Tests.Fixture.{kinds, cluster}
use kubestellar_workload_sta.Tests.Runs.{app, dev, prod, entry, ready, status, run_note}

unfoldable pub ranges : RangesAll cluster
ranges objs obj = (λ i. i, λ i. i)

active_index_of : Option (PolicyData kinds) → ℕ
active_index_of none = 5
active_index_of (some d) = d.active_index

index_after : Run (State cluster) (Unit {0}) → ℕ
unfolding active_index_of
index_after (done _ s) = active_index_of (lookup app s.policies)
index_after (panicked _ s) = 9

changes :
    attempt_condition cluster app (ready (dev ∷ prod ∷ [])) ≢ done tt (ready (dev ∷ prod ∷ []))
unfolding run_note index_after
changes e = absurd (omega (arith, ap index_after e))

returns :
    attempt_condition cluster app (ready (dev ∷ prod ∷ []))
    ≢ panicked nil_dereference (ready (dev ∷ prod ∷ []))
unfolding run_note index_after
returns e = absurd (omega (arith, ap index_after e))

attempt_condition_sound_example :
    (attempt_condition cluster app (ready (dev ∷ prod ∷ []))
      ≡ stage_up cluster app (ready (dev ∷ prod ∷ [])))
    × IsFulfilled cluster app (ready (dev ∷ prod ∷ []))
attempt_condition_sound_example =
    attempt_condition_sound cluster ranges app (ready (dev ∷ prod ∷ [])) changes returns

pub web : ObjectIdentifier
web = record {
  group = codes "apps";
  version = [];
  kind = codes "deployments";
  resource = codes "deployments";
  namespace = codes "ns";
  name = codes "web";
}

abbrev selector : List (Str × Str)
selector =
    (label_group, codes "apps")
    ∷ (label_resource, codes "deployments")
    ∷ (label_namespace, codes "ns")
    ∷ (label_name, codes "web")
    ∷ (label_binding_policy, codes "app.stage.dev")
    ∷ []

pub selects_web :
    (obj : ObjectIdentifier)
    → (obj ≡ web) ⊎ ⊥
    → status_selector cluster (codes "app.stage.dev") obj ≡ some selector
unfolding status_selector web
selects_web obj i = elim i [ inl e ↦ rw e refl | inr b ↦ absurd b ]

pub nonempty :
    (rest : List (Stage kinds))
    → filter_workload cluster (entry (dev ∷ rest)).binding_spec.workload dev.filter_expression ≢ []
unfolding run_note
nonempty rest e = ground arith

unfoldable pub fulfilled :
    (rest : List (Stage kinds)) → IsFulfilled cluster app (ready (dev ∷ rest))
unfolding run_note web
fulfilled rest = (
  entry (dev ∷ rest),
  dev,
  codes "ready",
  refl,
  refl,
  refl,
  nonempty rest,
  λ obj i. (
    status true,
    (selector, status true ∷ [], true, selects_web obj i, refl, inl refl, refl, refl, refl),
  ),
)

pub unambiguous :
    (rest : List (Stage kinds))
    → IsUnambiguous cluster ranges app (ready (dev ∷ rest)) (fulfilled rest)
unfolding fulfilled
unambiguous rest obj i cs m c = elim m [ inl e ↦ e | inr b ↦ absurd b ]

attempt_condition_next_example : attempt_condition cluster app (ready (dev ∷ prod ∷ [])) ≡ (
    let (outcome, server) =
      rollout cluster app (entry (dev ∷ prod ∷ [])) dev prod (ready (dev ∷ prod ∷ [])).server in
    done tt (record {
      policies =
          insert app (settle outcome (entry (dev ∷ prod ∷ []))) (ready (dev ∷ prod ∷ [])).policies;
      server = server;
    }))
unfolding fulfilled
attempt_condition_next_example =
    attempt_condition_next cluster ranges app (ready (dev ∷ prod ∷ [])) (fulfilled (prod ∷ []))
      (unambiguous (prod ∷ [])) prod refl

attempt_condition_last_example :
    (s' : State cluster) × (attempt_condition cluster app (ready (dev ∷ []))
      ≡ panicked index_out_of_range s')
    × (s'.server ≡ record (ready (dev ∷ [])).server { binding_policies = [] })
unfolding fulfilled
attempt_condition_last_example =
    attempt_condition_last cluster ranges app (ready (dev ∷ [])) (fulfilled []) (unambiguous [])
      refl refl

stage_up-rollout_example : stage_up cluster app (ready (dev ∷ prod ∷ [])) ≡ (
    let (outcome, server) =
      rollout cluster app (entry (dev ∷ prod ∷ [])) dev prod (ready (dev ∷ prod ∷ [])).server in
    done tt (record {
      policies =
          insert app (settle outcome (entry (dev ∷ prod ∷ []))) (ready (dev ∷ prod ∷ [])).policies;
      server = server;
    }))
unfolding run_note
stage_up-rollout_example =
    stage_up-rollout cluster app (entry (dev ∷ prod ∷ [])) dev prod (ready (dev ∷ prod ∷ [])) refl
      refl refl
