-- ===== src/Informers/Laws.antt =====
-- Starting is idempotent, and an informer is made once.
use kubestellar_workload_sta.Base.{
  ℕ, ◌≡◌, refl, Bool, true, false, List, [], ◌∷◌, Str, ◌==◌, str_eq, arith, ◌||◌,
}
use kubestellar_workload_sta.Base.Dict.{Dict, insert, lookup-insert}
use kubestellar_workload_sta.Informers.{
  Machinery, Factory, is_started, start_one, start_all, start, informer_for, resync_period,
}

abbrev contains_name : Str → List Str → Bool
contains_name t [] = false
contains_name t (u ∷ ts) = t == u || contains_name t ts

-- Every informer of the list has been started.
abbrev AllStarted : {I : Type 0} → Dict Str I → Dict Str Bool → Type 0
AllStarted [] started = Unit
AllStarted ((t, _) ∷ ds) started = (is_started t started ≡ true) × AllStarted ds started

module _ {M : Machinery} where
  start_one-is_started :
      (t type : Str) (f : Factory M)
      → is_started type (start_one t f).started_informers
        ≡ (is_started type f.started_informers || type == t)
  start_one-is_started t type f = ground (arith, lookup-insert type t true f.started_informers)

  start_all-keeps :
      (ds : Dict Str M.Informer) (f : Factory M) (type : Str)
      → is_started type f.started_informers ≡ true
      → is_started type (start_all ds f).started_informers ≡ true
  unfolding start_all
  start_all-keeps [] f type h = h
  start_all-keeps ((t, i) ∷ ds) f type h =
      start_all-keeps ds (start_one t f) type (rw (start_one-is_started t type f, h))

  start_all-AllStarted :
      (ds : Dict Str M.Informer) (f : Factory M) → AllStarted ds (start_all ds f).started_informers
  unfolding start_all
  start_all-AllStarted [] f = tt
  start_all-AllStarted ((t, i) ∷ ds) f = (
    start_all-keeps ds (start_one t f) t (ground (arith, start_one-is_started t t f)),
    start_all-AllStarted ds (start_one t f),
  )

  start_all_of_AllStarted :
      (ds : Dict Str M.Informer) (f : Factory M)
      → AllStarted ds f.started_informers
      → start_all ds f ≡ f
  unfolding start_all
  start_all_of_AllStarted [] f h = refl
  start_all_of_AllStarted ((t, i) ∷ ds) f h = ground (arith, start_all_of_AllStarted ds f h.1)

  start_all_frame :
      (ds : Dict Str M.Informer) (f : Factory M)
      → ((start_all ds f).informers ≡ f.informers)
        × ((start_all ds f).shutting_down ≡ f.shutting_down)
  unfolding start_all
  start_all_frame [] f = (refl, refl)
  start_all_frame ((t, i) ∷ ds) f = ground (arith, start_all_frame ds (start_one t f))

  -- A factory that is not shutting down has started all its informers after `Start`.
  start-AllStarted :
      (f : Factory M)
      → f.shutting_down ≡ false
      → AllStarted (start f).informers (start f).started_informers
  unfolding start
  start-AllStarted f h =
      ground (arith, start_all_frame f.informers f, start_all-AllStarted f.informers f)

  -- `Start` may be called any number of times: a second call changes nothing.
  start-start : (f : Factory M) → start (start f) ≡ start f
  unfolding start
  start-start f = ground (
    arith,
    start_all_frame f.informers f,
    start_all_of_AllStarted f.informers (start_all f.informers f)
        (start_all-AllStarted f.informers f),
  )

-- Each running informer is marked as started, and none runs twice.
abbrev pub RunsOnce : List Str → Dict Str Bool → Type 0
RunsOnce [] started = Unit
RunsOnce (t ∷ ts) started =
    (is_started t started ≡ true) × (contains_name t ts ≡ false) × RunsOnce ts started

RunsOnce-contains_name :
    (t : Str) (ts : List Str) (started : Dict Str Bool)
    → RunsOnce ts started
    → contains_name t ts ≡ true
    → is_started t started ≡ true
RunsOnce-contains_name t [] started h c = cc
RunsOnce-contains_name t (u ∷ ts) started h c =
    ground (arith, RunsOnce-contains_name t ts started h.2)

RunsOnce-insert :
    (t : Str) (ts : List Str) (started : Dict Str Bool)
    → RunsOnce ts started
    → RunsOnce ts (insert t true started)
RunsOnce-insert t [] started h = tt
RunsOnce-insert t (u ∷ ts) started h =
    ground (arith, lookup-insert u t true started, RunsOnce-insert t ts started h.2)

module _ {M : Machinery} where
  start_one-RunsOnce :
      (t : Str) (f : Factory M)
      → RunsOnce f.running f.started_informers
      → RunsOnce (start_one t f).running (start_one t f).started_informers
  start_one-RunsOnce t f h = ground (
    arith,
    lookup-insert t t true f.started_informers,
    RunsOnce-contains_name t f.running f.started_informers h,
    RunsOnce-insert t f.running f.started_informers h,
  )

  start_all-RunsOnce :
      (ds : Dict Str M.Informer) (f : Factory M)
      → RunsOnce f.running f.started_informers
      → RunsOnce (start_all ds f).running (start_all ds f).started_informers
  unfolding start_all
  start_all-RunsOnce [] f h = h
  start_all-RunsOnce ((t, i) ∷ ds) f h =
      start_all-RunsOnce ds (start_one t f) (start_one-RunsOnce t f h)

  -- `Start` keeps that each running informer is marked as started and that none runs twice.
  pub start-RunsOnce :
      (f : Factory M)
      → RunsOnce f.running f.started_informers
      → RunsOnce (start f).running (start f).started_informers
  unfolding start
  start-RunsOnce f h = ground (arith, start_all-RunsOnce f.informers f h)

  -- `InformerFor` called again for a type returns the informer of the first call and leaves the factory
  -- as it is, whatever function it is given to make one.
  pub informer_for_again :
      (type : Str) (first second : M.Client → ℕ → M.Informer) (f : Factory M)
      → informer_for type second (informer_for type first f).1
        ≡ ((informer_for type first f).0, (informer_for type first f).1)
  unfolding informer_for
  informer_for_again type first second f =
      ground (arith, lookup-insert type type (first f.client (resync_period type f)) f.informers)
