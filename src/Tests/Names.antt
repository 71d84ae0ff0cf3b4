-- ===== src/Tests/Names.antt =====
-- The theorems on names and expressions at concrete inputs.
use kubestellar_workload_sta.Base.{◌≡◌, refl, [], ◌∷◌, codes, str_eq, nat_eq}
use kubestellar_workload_sta.Strings.{split, contains, stage_name, stage_separator}
use kubestellar_workload_sta.Strings.StageName.{split-stage_name}

split-stage_name_example :
    split (stage_name (codes "app") (codes "dev")) stage_separator ≡ codes "app" ∷ codes "dev" ∷ []
unfolding contains nat_eq
split-stage_name_example = split-stage_name (codes "app") (codes "dev") refl refl
