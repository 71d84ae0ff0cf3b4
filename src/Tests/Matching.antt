-- ===== src/Tests/Matching.antt =====
-- The theorem on the routing of combined statuses at a concrete input.
use kubestellar_workload_sta.Base.{◌≡◌, refl, true, [], ◌∷◌, codes}
use kubestellar_workload_sta.Resolver.Condition.{attempt_condition}
use kubestellar_workload_sta.Resolver.Notes.{note_combined_status}
use kubestellar_workload_sta.Resolver.Matching.{note_combined_status-stage_name}
use kubestellar_workload_sta.Tests.Fixture.{cluster}
use kubestellar_workload_sta.Tests.Runs.{app, dev, prod, ready, status, run_note}

note_combined_status-stage_name_example :
    note_combined_status cluster (status true) (ready (dev ∷ prod ∷ []))
    ≡ attempt_condition cluster app (ready (dev ∷ prod ∷ []))
unfolding run_note
note_combined_status-stage_name_example =
    note_combined_status-stage_name cluster app (codes "dev") (status true)
      (ready (dev ∷ prod ∷ [])) [] [] refl refl refl refl (λ i. i) (λ i. i)
