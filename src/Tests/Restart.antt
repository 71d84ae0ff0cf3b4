-- ===== src/Tests/Restart.antt =====
-- The theorem on a restart, on the cluster in memory.
use kubestellar_workload_sta.Base.{
  ℕ, zero, suc, ◌≡◌, ◌≢◌, ◌⊎◌, refl, true, Option, none, some, List, [], ◌∷◌, Str, codes, str_eq,
  nat_eq, get_elem?, arith,
}
use kubestellar_workload_sta.Base.Dict.{lookup, lookup-insert}
use kubestellar_workload_sta.Run.{final}
use kubestellar_workload_sta.Api.{Stage, StagedBindingPolicy}
use kubestellar_workload_sta.Cluster.{Failure}
use kubestellar_workload_sta.Resolver.{PolicyData, State, new_resolver}
use kubestellar_workload_sta.Resolver.Notes.{new_entry, note_policy}
use kubestellar_workload_sta.Resolver.Restart.{IsStore, AreNamed}
use kubestellar_workload_sta.Resolver.Restart.Ensured.{after_deletion, HasCreated}
use kubestellar_workload_sta.Resolver.Restart.Resumed.{
  still, served, any_binding, elsewhere, restart_keeps_stage,
}
use kubestellar_workload_sta.Tests.Fixture.{kinds, cluster, Server, if_named}
use kubestellar_workload_sta.Tests.Runs.{app, dev, prod, policy, server, binding, bound}
use kubestellar_workload_sta.Tests.Staging.{ranges}

abbrev stored : Server → Str → Option (StagedBindingPolicy kinds)
stored s name = if_named name (lookup name s.policies)

names : AreNamed (dev ∷ prod ∷ [])
names = record { nonempty = nonempty; distinct = distinct }
  where
    nonempty :
        (k : ℕ) (stage : Stage kinds) → get_elem? (dev ∷ prod ∷ []) k ≡ some stage → stage.name ≢ []
    nonempty zero stage h e = ground arith
    nonempty (suc zero) stage h e = ground arith
    nonempty (suc (suc k)) stage h e = cc

    distinct :
        (j k : ℕ) (one other : Stage kinds)
        → get_elem? (dev ∷ prod ∷ []) j ≡ some one
        → get_elem? (dev ∷ prod ∷ []) k ≡ some other
        → one.name ≡ other.name
        → j ≡ k
    distinct zero zero one other p q e = refl
    distinct zero (suc zero) one other p q e = absurd (ground arith)
    distinct zero (suc (suc k)) one other p q e = absurd (cc)
    distinct (suc zero) zero one other p q e = absurd (ground arith)
    distinct (suc zero) (suc zero) one other p q e = refl
    distinct (suc zero) (suc (suc k)) one other p q e = absurd (cc)
    distinct (suc (suc j)) k one other p q e = absurd (cc)

store : IsStore cluster stored
store = record {
  named = λ n s sbp h. ground arith;
  got = λ n s sbp g. ground arith;
  delete_keeps = λ n m s. ground arith;
  create_keeps = λ p m s. ground arith;
  get_keeps = λ n m s. refl;
  updated = λ sbp old s h u. ground (
    arith,
    lookup-insert sbp.metadata.name sbp.metadata.name (record old { status = sbp.status })
        s.policies,
  );
  refused_keeps = λ sbp m s e h. ground arith;
  update_keeps = λ sbp m s n.
      grind
        (arith, λ (x : StagedBindingPolicy kinds). lookup-insert m sbp.metadata.name x s.policies);
}

abbrev stages : List (Stage kinds)
stages = dev ∷ prod ∷ []

-- The policy with the status that the move to its second stage has written.
abbrev at_prod : StagedBindingPolicy kinds
at_prod = record (policy stages) { status = record { active_stage = codes "prod" } }

-- The policy at its second stage, before the restart: by then the stage's BindingPolicy has been deleted, and the
-- API server has a UID to give.
unfoldable before_restart : State cluster
unfolding bound
before_restart = record (bound stages true) {
  server = record (bound stages true).server { binding_policies = []; uids = codes "u3" ∷ [] };
}

unfoldable restarted : State cluster
unfolding before_restart
restarted = final (note_policy cluster at_prod (new_resolver cluster before_restart.server))

abbrev no_failure : Option (Failure cluster.Error)
no_failure = none

-- The policy is noted, its binding is noted, and the policy moves to its second stage. Its BindingPolicy is
-- deleted. After a restart the note succeeds, and the policy goes on at that stage.
restart_keeps_stage_example :
    (before : PolicyData kinds) × (after : PolicyData kinds) × (lookup app before_restart.policies
      ≡ some before)
    × (lookup app restarted.policies ≡ some after)
    × (after.stages ≡ before.stages)
    × (after.active_index ≡ before.active_index)
    × (((f : Failure cluster.Error) × (no_failure ≡ some f))
        ⊎ HasCreated cluster app
            (new_entry at_prod)
            (after_deletion cluster app (new_entry at_prod) before_restart.server)
            restarted)
unfolding restarted
restart_keeps_stage_example =
    restart_keeps_stage cluster ranges store (policy stages) at_prod
      (new_resolver cluster (server stages true))
      (final (note_policy cluster (policy stages) (new_resolver cluster (server stages true))))
      before_restart restarted none none names refl refl
      (served (served still (any_binding binding refl)) (elsewhere refl refl)) refl refl
