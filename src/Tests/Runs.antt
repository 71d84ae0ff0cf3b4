-- ===== src/Tests/Runs.antt =====
-- Runs of the resolver on the cluster in memory.
use kubestellar_workload_sta.Base.{
  ℕ, ◌≡◌, refl, Bool, true, false, Option, none, some, List, [], ◌∷◌, Str, codes, str_eq, nat_eq,
}
use kubestellar_workload_sta.Base.Dict.{Dict, lookup, insert, erase}
use kubestellar_workload_sta.Run.{Run, panicked, index_out_of_range, final}
use kubestellar_workload_sta.Strings.{split, contains}
use kubestellar_workload_sta.Api.{
  ObjectMeta, Stage, StagedBindingPolicy, Binding, DownsyncObjectClauses,
}
use kubestellar_workload_sta.Cluster.{Failure}
use kubestellar_workload_sta.Cel.{test_expression}
use kubestellar_workload_sta.Resolver.{PolicyData, State, new_resolver}
use kubestellar_workload_sta.Resolver.Filter.{
  identifier_eq, filter_workload, selects, cluster_clause_map, namespace_clause_map,
  namespace_identifier, cluster_identifier,
}
use kubestellar_workload_sta.Resolver.Ensure.{
  ensure_active_stage, delete_previous, create_active, update_status, binding_policy, stage_up,
  advance, revert,
}
use kubestellar_workload_sta.Resolver.Condition.{
  attempt_condition, attempt_stage, check_objects, check_object, label_binding_policy, label_group,
  label_resource, label_name, label_namespace,
}
use kubestellar_workload_sta.Resolver.Notes.{
  note_policy, note_binding, note_combined_status, attempt_matching, new_entry, delete_policy,
}
use kubestellar_workload_sta.Tests.Fixture.{kinds, cluster, Server, Status}

abbrev pub stage : Str → Option Str → Option Str → Stage kinds
stage name filter_expression condition = record {
  name = name;
  cluster_selectors = name ∷ [];
  filter_expression = filter_expression;
  condition = condition;
}

abbrev meta : Str → Str → ObjectMeta
meta name uid = record {
  name = name;
  uid = uid;
  generation = 1;
  labels = [];
  owner_references = [];
}

abbrev pub dev : Stage kinds
dev = stage (codes "dev") (some (codes "deployments")) (some (codes "ready"))

abbrev pub prod : Stage kinds
prod = stage (codes "prod") none none

abbrev pub policy : List (Stage kinds) → StagedBindingPolicy kinds
policy stages = record {
  metadata = meta (codes "app") (codes "p1");
  spec = record { downsync = []; stages = stages };
  status = record { active_stage = [] };
}

abbrev pub workload : DownsyncObjectClauses
workload = record {
  cluster_scope = [];
  namespace_scope =
      record {
        group = codes "apps";
        version = codes "v1";
        resource = codes "deployments";
        name = codes "web";
        namespace = codes "ns";
        resource_version = codes "7";
      }
      ∷ [];
}

abbrev pub binding : Binding
binding = record {
  metadata = record {
    name = codes "app.stage.dev";
    uid = codes "b1";
    generation = 1;
    labels = [];
    owner_references =
        record {
          api_version = [];
          kind = codes "BindingPolicy";
          name = codes "app.stage.dev";
          uid = codes "u1";
        }
        ∷ [];
  };
  spec = record { workload = workload };
}

abbrev pub status : Bool → Status
status ready = record {
  name = codes "u1.web";
  labels =
      (label_group, codes "apps")
      ∷ (label_resource, codes "deployments")
      ∷ (label_namespace, codes "ns")
      ∷ (label_name, codes "web")
      ∷ (label_binding_policy, codes "app.stage.dev")
      ∷ [];
  ready = ready;
}

abbrev pub server : List (Stage kinds) → Bool → Server
server stages ready = record {
  binding_policies = [];
  policies = (codes "app", policy stages) ∷ [];
  bindings = (codes "app.stage.dev", binding) ∷ [];
  statuses = status ready ∷ [];
  uids = codes "u1" ∷ codes "u2" ∷ [];
}

abbrev pub app : Str
app = codes "app"

-- The entry of the policy at its first stage, with its binding noted.
abbrev pub entry : List (Stage kinds) → PolicyData kinds
entry stages = record {
  uid = codes "p1";
  downsync = [];
  stages = stages;
  active_index = 0;
  active_binding_policy_uid = codes "u1";
  binding_spec = record { workload = workload };
}

-- The policy is at its first stage, whose BindingPolicy exists and whose status is ready.
abbrev pub ready : List (Stage kinds) → State cluster
ready stages = record {
  policies = (app, entry stages) ∷ [];
  server = record (server stages true) {
    binding_policies = (codes "app.stage.dev", codes "u1") ∷ [];
    uids = codes "u2" ∷ [];
  };
}

-- Everything that a run computes with.
unfoldable pub run_note :
    StagedBindingPolicy kinds → State cluster → Run (State cluster) (Option (Failure cluster.Error))
unfolding new_resolver nat_eq note_policy note_combined_status attempt_matching delete_policy
    cluster_clause_map cluster_identifier note_binding new_entry ensure_active_stage delete_previous
    create_active binding_policy update_status attempt_condition attempt_stage filter_workload
    selects test_expression check_objects check_object contains str_eq lookup insert erase
    identifier_eq split stage_up advance revert namespace_clause_map namespace_identifier
run_note = note_policy cluster

-- The policy is noted, then its binding.
unfoldable pub bound : List (Stage kinds) → Bool → State cluster
unfolding run_note
bound stages ready =
    let noted =
      final (note_policy cluster (policy stages) (new_resolver cluster (server stages ready))) in
    final (note_binding cluster binding noted)

outcome : State cluster → Dict Str Str × Option ℕ
unfolding bound
outcome s = (
  s.server.binding_policies,
  elim (lookup (codes "app") s.policies) [ none ↦ none | some d ↦ some d.active_index ],
)

-- A status that is not ready leaves the policy at its first stage.
stays : outcome (bound (dev ∷ prod ∷ []) false) ≡ ((codes "app.stage.dev", codes "u1") ∷ [], some 0)
unfolding outcome
stays = refl

-- Once the status is ready, the BindingPolicy of the second stage takes the place of the first.
moves : outcome (bound (dev ∷ prod ∷ []) true) ≡ ((codes "app.stage.prod", codes "u2") ∷ [], some 1)
unfolding outcome
moves = refl

-- A single stage whose condition is satisfied: the attempt panics, and no BindingPolicy is left.
crashes :
    (s : State cluster) × (attempt_condition cluster app (ready (dev ∷ []))
      ≡ panicked index_out_of_range s)
    × (s.server.binding_policies ≡ [])
unfolding run_note
crashes = (_, refl, refl)
