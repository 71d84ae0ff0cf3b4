-- ===== src/Tests/First.antt =====
-- The theorem on a policy's first stage at a concrete input.
use kubestellar_workload_sta.Base.{true, ◌≡◌, refl, none, some, List, [], ◌∷◌, codes, str_eq}
use kubestellar_workload_sta.Base.Dict.{lookup}
use kubestellar_workload_sta.Run.{done}
use kubestellar_workload_sta.Api.{Stage}
use kubestellar_workload_sta.Resolver.{State, new_resolver}
use kubestellar_workload_sta.Resolver.Notes.{note_policy}
use kubestellar_workload_sta.Resolver.First.{created_entry, note_policy_created}
use kubestellar_workload_sta.Tests.Fixture.{kinds, cluster}
use kubestellar_workload_sta.Tests.Runs.{app, dev, prod, policy, server, run_note}

abbrev stages : List (Stage kinds)
stages = dev ∷ prod ∷ []

abbrev fresh : State cluster
fresh = new_resolver cluster (server stages true)

note_policy_created_example :
    (s' : State cluster) × (note_policy cluster (policy stages) fresh ≡ done none s')
    × (lookup app s'.policies
        ≡ some (created_entry cluster (policy stages) (policy stages) dev (codes "u1") fresh))
    × (s'.server ≡ record (server stages true) {
      binding_policies = (codes "app.stage.dev", codes "u1") ∷ [];
      policies =
          (codes "app", record (policy stages) { status = record { active_stage = codes "dev" } })
          ∷ [];
      uids = codes "u2" ∷ [];
    })
unfolding run_note
note_policy_created_example =
    note_policy_created cluster (policy stages) (policy stages) dev (codes "u1") fresh refl refl
      refl refl refl
