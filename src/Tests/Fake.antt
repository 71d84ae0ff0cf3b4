-- ===== src/Tests/Fake.antt =====
-- `List` of the fake client at two policies, one of which has the label that is asked for.
use kubestellar_workload_sta.Base.{
  ◌≡◌, ◌↔◌, refl, Bool, true, false, none, some, [], ◌∷◌, Str, codes, In,
}
use kubestellar_workload_sta.Base.Dict.{Dict}
use kubestellar_workload_sta.Run.{done}
use kubestellar_workload_sta.Api.{StagedBindingPolicy}
use kubestellar_workload_sta.Client.{list}
use kubestellar_workload_sta.Fake.{
  FakeLibrary, PolicyList, list_object, list_answer, empty_policy, call,
}
use kubestellar_workload_sta.Fake.Matching.{call-list}
use kubestellar_workload_sta.Tests.Fixture.{kinds}
use kubestellar_workload_sta.Tests.Client.{options}

abbrev labelled : Dict Str Str → StagedBindingPolicy kinds
labelled labels = record (empty_policy kinds) {
  metadata = record {
    name = codes "app";
    uid = codes "u1";
    generation = 1;
    labels = labels;
    owner_references = [];
  };
}

abbrev policies : PolicyList kinds Str
policies = record {
  list_meta = codes "7";
  items = labelled [] ∷ labelled ((codes "env", codes "dev") ∷ []) ∷ [];
}

-- The reactions answer with the two policies; all selectors ask for a label.
abbrev library : FakeLibrary kinds options
library = record {
  World = Unit {0};
  Error = Str;
  ListMeta = Str;
  Other = Unit {0};
  Watch = Unit {0};
  Selector = Bool;
  empty_list_meta = [];
  invokes = λ action default w. ((some (list_object policies), none), w);
  invokes_watch = λ action w. ((none, none), w);
  label_of_list_options = λ o. some false;
  everything = true;
  matches = λ all labels. elim labels [ [] ↦ all | _ ∷ _ ↦ true ];
}

call-list_example :
    (found : PolicyList kinds Str) × (call library (list (none, false)) tt
      ≡ done (list_answer (some found) none) tt)
    × (found.list_meta ≡ codes "7")
    × (found.items ≡ labelled ((codes "env", codes "dev") ∷ []) ∷ [])
    × ((item : StagedBindingPolicy kinds)
        → In item found.items
          ↔ (In item policies.items × (library.matches false item.metadata.labels ≡ true)))
call-list_example = call-list library (none, false) tt tt policies none refl
