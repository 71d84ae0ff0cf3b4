-- ===== src/Informers/Synced.antt =====
-- What `WaitForCacheSync` reports on.
use kubestellar_workload_sta.Base.{
  ◌≡◌, refl, Bool, true, false, ◌&&◌, ◌||◌, none, some, [], ◌∷◌, Str, str_eq, arith, ◌==◌,
}
use kubestellar_workload_sta.Base.Dict.{Dict, lookup, insert, lookup-insert}
use kubestellar_workload_sta.Informers.{
  Machinery, Factory, is_started, awaited, sync_all, wait_for_cache_sync,
}

-- Whether a map has a key.
abbrev has_key : {V : Type 0} → Str → Dict Str V → Bool
has_key type d = elim (lookup type d) [ none ↦ false | some _ ↦ true ]

has_key-insert :
    {V : Type 0} (type other : Str) (v : V) (d : Dict Str V)
    → has_key type (insert other v d) ≡ (type == other || has_key type d)
has_key-insert type other v d = ground (arith, lookup-insert type other v d)

has_key-awaited :
    {I : Type 0} (type : Str) (informers : Dict Str I) (started : Dict Str Bool)
    → has_key type (awaited informers started) ≡ (has_key type informers && is_started type started)
unfolding awaited lookup
has_key-awaited type [] started = refl
has_key-awaited type ((other, i) ∷ informers) started =
    ground (arith, has_key-awaited type informers started)

has_key-sync_all :
    {I W : Type 0} (wait : I → W → Bool × W) (type : Str) (informers : Dict Str I)
    (result : Dict Str Bool) (w : W)
    → has_key type (sync_all wait informers result w).0
      ≡ (has_key type informers || has_key type result)
unfolding sync_all lookup
has_key-sync_all wait type [] result w = refl
has_key-sync_all wait type ((other, i) ∷ informers) result w =
    let (synced, w') = wait i w in
    ground (
      arith,
      has_key-sync_all wait type informers (insert other synced result) w',
      has_key-insert type other synced result,
    )

-- `WaitForCacheSync` reports on the informers that the factory has and has started, and on no other.
has_key-wait_for_cache_sync :
    {M : Machinery} {W : Type 0} (wait : M.Informer → W → Bool × W) (type : Str) (f : Factory M)
    (w : W)
    → has_key type (wait_for_cache_sync wait f w).0
      ≡ (has_key type f.informers && is_started type f.started_informers)
unfolding wait_for_cache_sync lookup
has_key-wait_for_cache_sync wait type f w = ground (
  arith,
  has_key-sync_all wait type (awaited f.informers f.started_informers) [] w,
  has_key-awaited type f.informers f.started_informers,
)
