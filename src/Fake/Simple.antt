-- ===== src/Fake/Simple.antt =====
-- pkg/generated/clientset/versioned/fake/clientset_generated.go: the fake clientset over client-go's object
-- tracker, which is the state that its reactions share. A panic of NewSimpleClientset is no result.
use kubestellar_workload_sta.Base.{
  ◌≡◌, refl, inl, inr, Option-cases, Bool, true, false, Option, none, some, List, [], ◌∷◌, ◌++◌,
  Str, codes,
}
use kubestellar_workload_sta.Api.{Kinds}
use kubestellar_workload_sta.Cluster.{Result, ok, err}
use kubestellar_workload_sta.Client.{Options}
use kubestellar_workload_sta.Fake.{FakeAction, Object}
use kubestellar_workload_sta.Informers.Resource.{GroupVersionResource}

module _ (K : Kinds) (O : Options) where
  -- client-go's object tracker, and what its reactions read of an action.
  pub record TrackerLibrary : Type 1 where
    pub Tracker : Type 0
    pub Error : Type 0
    pub ListMeta : Type 0
    pub Other : Type 0
    pub Watch : Type 0
    pub Reactor : Type 0
    pub new_object_tracker : Tracker
    pub add : Object K ListMeta Other → Tracker → Option Error × Tracker
    pub watch : GroupVersionResource → Str → Tracker → Result Error Watch × Tracker
    pub object_reaction : Reactor
    pub get_resource : FakeAction K O → GroupVersionResource
    pub get_namespace : FakeAction K O → Str

module _ {K : Kinds} {O : Options} (L : TrackerLibrary K O) where
  -- Whether a reaction has handled an action, with what it returns.
  pub record WatchResult : Type 0 where
    pub handled : Bool
    pub watch : Option L.Watch
    pub error : Option L.Error

  abbrev WatchReactor : Type 0
  WatchReactor = FakeAction K O → L.Tracker → WatchResult × L.Tracker

  -- `Clientset`, with the chains of its `testing.Fake`; the fake discovery client is left out.
  pub record SimpleClientset : Type 0 where
    pub tracker : L.Tracker
    pub reactors : List (Str × Str × L.Reactor)
    pub watch_reactors : List (Str × WatchReactor)

  unfoldable pub watch_reaction : WatchReactor
  watch_reaction action tracker =
      let (r, tracker') = L.watch (L.get_resource action) (L.get_namespace action) tracker in
      elim r [
        | err e ↦ (record { handled = false; watch = none; error = some e }, tracker')
        | ok found ↦ (record { handled = true; watch = some found; error = none }, tracker')
      ]

  -- The loop over the objects, which panics at the first that the tracker refuses.
  unfoldable pub add_all : List (Object K L.ListMeta L.Other) → L.Tracker → Option L.Tracker
  add_all [] tracker = some tracker
  add_all (obj ∷ objects) tracker =
      let (e, tracker') = L.add obj tracker in
      let rest = add_all objects tracker' in elim e [ none ↦ rest | some _ ↦ none ]

  unfoldable pub new_simple_clientset : List (Object K L.ListMeta L.Other) → Option SimpleClientset
  new_simple_clientset objects = elim (add_all objects L.new_object_tracker) [
    | none ↦ none
    | some tracker ↦ some (record {
      tracker = tracker;
      reactors = (codes "*", codes "*", L.object_reaction) ∷ [];
      watch_reactors = (codes "*", watch_reaction) ∷ [];
    })
  ]

  -- A clientset with more objects is one with the first, to whose tracker the others are added.
  add_all-append :
      (xs ys : List (Object K L.ListMeta L.Other)) (tracker : L.Tracker)
      → add_all (xs ++ ys) tracker
        ≡ elim (add_all xs tracker) [ none ↦ none | some tracker' ↦ add_all ys tracker' ]
  unfolding add_all
  add_all-append [] ys tracker = refl
  add_all-append (x ∷ xs) ys tracker = elim (Option-cases (L.add x tracker).0) [
    | inl e ↦ rw e (add_all-append xs ys (L.add x tracker).1)
    | inr (_, e) ↦ rw e refl
  ]
