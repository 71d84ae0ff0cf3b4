-- ===== src/Tests/Notes.antt =====
-- The theorems on the methods of the resolver, on the cluster in memory.
use kubestellar_workload_sta.Base.{
  ℕ, zero, suc, ◌≤◌, ◌≡◌, ◌≢◌, ◌↔◌, refl, inl, none, some, true, List, [], ◌∷◌, Str, codes, str_eq,
  nat_eq, In, arith, get_elem?,
}
use kubestellar_workload_sta.Base.Dict.{lookup, insert}
use kubestellar_workload_sta.Run.{done, final}
use kubestellar_workload_sta.Api.{Stage, Binding, NamespaceScopeDownsyncClause}
use kubestellar_workload_sta.Cluster.{external}
use kubestellar_workload_sta.Resolver.{PolicyData, State, new_resolver}
use kubestellar_workload_sta.Resolver.Filter.{namespace_identifier, filter_workload}
use kubestellar_workload_sta.Resolver.Condition.{attempt_condition}
use kubestellar_workload_sta.Resolver.Notes.{new_entry, note_policy, note_binding}
use kubestellar_workload_sta.Resolver.Bounds.{IsValid}
use kubestellar_workload_sta.Resolver.Reach.{here, next, policy as policy_step, Reach-IsValid}
use kubestellar_workload_sta.Resolver.Recovery.{new_entry-first}
use kubestellar_workload_sta.Resolver.Idle.{IsIdle}
use kubestellar_workload_sta.Resolver.Stalled.{
  IsRefused, still, stalled, owned_binding, any_combined_status, note_refused, refusal_lasts,
}
use kubestellar_workload_sta.Resolver.Frame.{lookup-note_policy}
use kubestellar_workload_sta.Resolver.Selected.{
  IsFiltered, In-filter_workload, filter_workload_ignores_group,
}
use kubestellar_workload_sta.Resolver.Routing.{note_binding-binding_policy, note_binding_misread}
use kubestellar_workload_sta.Tests.Fixture.{kinds, cluster, already_exists}
use kubestellar_workload_sta.Tests.Runs.{
  app, dev, prod, entry, ready, status, run_note, policy, server, binding, workload,
}

abbrev stages : List (Stage kinds)
stages = dev ∷ prod ∷ []

Reach-IsValid_example :
    IsValid cluster
      (final (note_policy cluster (policy stages) (new_resolver cluster (server stages true))))
unfolding run_note
Reach-IsValid_example =
    Reach-IsValid cluster (server stages true) (next here (policy_step (policy stages) none refl))

new_entry-first_example :
    (new_entry
      (record (policy stages) { status = record { active_stage = codes "prod" } })).active_index
    ≡ 1
new_entry-first_example = new_entry-first (policy stages) 1 prod refl (λ e. ground arith) first
  where
    first :
        (j : ℕ) (other : Stage kinds)
        → suc j ≤ 1
        → get_elem? stages j ≡ some other
        → other.name ≢ codes "prod"
    first zero other l g e = absurd (ground arith)
    first (suc j) other l g e = absurd (omega arith)

-- The name of the first stage's BindingPolicy is taken.
abbrev taken : State cluster
taken = record {
  policies = [];
  server = record (server stages true) {
    binding_policies = (codes "app.stage.dev", codes "old") ∷ [];
  };
}

-- After the note that is refused, its binding and its combined status come, and then the note again.
after_note : State cluster
unfolding run_note
after_note = final (note_policy cluster (policy stages) taken)

refused : IsRefused cluster (policy stages) taken
unfolding run_note after_note
refused = record {
  stage = dev;
  at = after_note;
  error = already_exists;
  active = refl;
  deleted = refl;
  refused = refl;
}

again : IsRefused cluster (policy stages) after_note
unfolding run_note after_note
again = record {
  stage = dev;
  at = after_note;
  error = already_exists;
  active = refl;
  deleted = refl;
  refused = refl;
}

refusal_lasts_example :
    (some (external already_exists) ≡ some (external already_exists))
    × ((d : PolicyData kinds) × (lookup app after_note.policies ≡ some d)
        × IsIdle d
        × (attempt_condition cluster app after_note ≡ done tt after_note))
unfolding run_note after_note refused
refusal_lasts_example =
    refusal_lasts cluster (policy stages) taken after_note after_note
      (some (external already_exists)) refused refl
      (stalled
        (stalled (stalled still (owned_binding binding (λ e. ground arith) refl))
          (any_combined_status (status true) refl))
        (note_refused (policy stages) (some (external already_exists)) refl again refl))

abbrev other : Str
other = codes "db"

other-ne-app : other ≢ app
other-ne-app e = ground arith

abbrev two : State cluster
two = record (ready stages) { policies = (other, entry stages) ∷ (app, entry stages) ∷ [] }

lookup-note_policy_example :
    lookup other (final (note_policy cluster (policy stages) two)).policies
    ≡ lookup other two.policies
lookup-note_policy_example = lookup-note_policy cluster other (policy stages) two other-ne-app

abbrev clause : NamespaceScopeDownsyncClause
clause = record {
  group = codes "batch";
  version = codes "v1";
  resource = codes "deployments";
  name = codes "web";
  namespace = codes "ns";
  resource_version = codes "7";
}

In-filter_workload_example :
    In (namespace_identifier clause) (filter_workload cluster workload (some (codes "deployments")))
    ↔ IsFiltered cluster (some (codes "deployments")) workload (namespace_identifier clause)
In-filter_workload_example =
    In-filter_workload cluster (some (codes "deployments")) workload (namespace_identifier clause)

filter_workload_ignores_group_example :
    In
      (namespace_identifier (record clause { group = codes "apps" }))
      (filter_workload cluster workload (some (codes "deployments")))
unfolding run_note
filter_workload_ignores_group_example =
    filter_workload_ignores_group cluster (some (codes "deployments")) workload clause
      (codes "apps") refl (inl refl)

note_binding-binding_policy_example :
    note_binding cluster binding (ready stages)
    ≡ attempt_condition cluster app (record (ready stages) {
      policies =
          insert app
            (record (entry stages) { binding_spec = binding.spec })
            (ready stages).policies;
    })
unfolding run_note
note_binding-binding_policy_example =
    note_binding-binding_policy cluster app (entry stages) dev binding (ready stages) refl refl refl
      refl refl

abbrev misread : Binding
misread = record binding {
  metadata = record binding.metadata { name = codes "db.stage.stage.dev" };
}

note_binding_misread_example :
    note_binding cluster misread two
    ≡ attempt_condition cluster other (record two {
      policies = insert other (record (entry stages) { binding_spec = misread.spec }) two.policies;
    })
unfolding run_note
note_binding_misread_example =
    note_binding_misread cluster other (entry stages) dev misread two refl refl refl
