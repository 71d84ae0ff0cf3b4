-- ===== src/Tests/Factory.antt =====
-- The theorems on the informer factory at a concrete factory.
use kubestellar_workload_sta.Base.{ℕ, Str, refl, true, false, none, [], ◌∷◌, codes, str_eq, nat_eq}
use kubestellar_workload_sta.Base.Dict.{lookup}
use kubestellar_workload_sta.Informers.{Machinery, Factory, start}
use kubestellar_workload_sta.Informers.Laws.{RunsOnce, start-RunsOnce}

abbrev machinery : Machinery
machinery = record { Client = Str; ListOptions = ℕ; Informer = ℕ }

-- A factory with one informer, which is its own resync period, already started, and one that is not.
abbrev factory : Factory machinery
factory = record {
  client = codes "client";
  tweak_list_options = none;
  namespace = [];
  default_resync = 0;
  custom_resync = [];
  informers = (codes "a", 0) ∷ (codes "b", 0) ∷ [];
  started_informers = (codes "a", true) ∷ [];
  shutting_down = false;
  running = codes "a" ∷ [];
}

start-RunsOnce_example : RunsOnce (start factory).running (start factory).started_informers
unfolding lookup str_eq
start-RunsOnce_example = start-RunsOnce factory (refl, refl, tt)
