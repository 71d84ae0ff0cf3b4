-- ===== src/Tests/Cel.antt =====
-- The theorem on the CEL evaluator, on the cluster in memory.
use kubestellar_workload_sta.Base.{◌≡◌, ◌↔◌, true, [], ◌∷◌, codes, str_eq, Str}
use kubestellar_workload_sta.Base.Dict.{Dict}
use kubestellar_workload_sta.Cluster.{Argument, unstructured}
use kubestellar_workload_sta.Cel.{test_expression}
use kubestellar_workload_sta.Cel.Laws.{Evaluates, test_expression-Evaluates}
use kubestellar_workload_sta.Tests.Fixture.{cluster}

abbrev arguments : Dict Str (Argument cluster.Unstructured)
arguments = (codes "combinedStatus", unstructured true) ∷ []

test_expression-Evaluates_example : (test_expression cluster (codes "ready") arguments ≡ true) ↔ (
    (v : cluster.Val) × (b : cluster.type_name v ≡ codes "bool") × (cluster.bool_value v b ≡ true)
    × Evaluates cluster (codes "ready") arguments v)
test_expression-Evaluates_example = test_expression-Evaluates cluster (codes "ready") arguments
