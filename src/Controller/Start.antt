-- ===== src/Controller/Start.antt =====
-- controller.go: the setup functions, `Start` and `run`, with `newCELEvaluator` of cel-evaluator.go. The
-- informers, their factories, cel-go and the goroutines are the fields of `Platform`.
use Prim.Native.String.{String}
use kubestellar_workload_sta.Base.{
  ◌≡◌, refl, arith, ℕ, zero, suc, Bool, true, false, Option, none, some, List, [], ◌∷◌,
}
use kubestellar_workload_sta.Api.{Kinds, StagedBindingPolicy, Binding}
use kubestellar_workload_sta.Cluster.{Cluster, Result, ok, err, Failure, external, wrapped}
use kubestellar_workload_sta.Resolver.{State, new_resolver}
use kubestellar_workload_sta.Controller.{WorkQueue}
use kubestellar_workload_sta.Controller.Events.{Event, on_binding, on_policy, on_combined_status}

-- The CEL types that the environment's declarations use.
pub data CelType : Type 0 where
  string_type dyn_type : CelType
  map_type : CelType → CelType → CelType

-- `decls.NewVar`
pub record Declaration : Type 0 where
  pub name : String
  pub type : CelType

pub data Informer : Type 0 where
  binding_informer combined_status_informer policy_informer : Informer

-- What `Start` calls of other modules and of the runtime. `World` is all state of the informers, the
-- queue and the goroutines.
pub record Platform {K : Kinds} (C : Cluster K) (W : WorkQueue) : Type 1 where
  pub World : Type 0
  pub Env : Type 0
  -- `cel.NewEnv`
  pub new_env : List Declaration → Result C.Error Env
  -- `AddEventHandler` of the three informers
  pub add_binding_handler : (Event Binding → W.Queue → W.Queue) → World → Option C.Error × World
  pub add_combined_status_handler :
      (Event C.CombinedStatus → W.Queue → W.Queue) → World → Option C.Error × World
  pub add_policy_handler :
      (Event (StagedBindingPolicy K) → W.Queue → W.Queue) → World → Option C.Error × World
  -- the `Start` functions of the KubeStellar factory and of this repository's
  pub ks_informer_factory_start : World → World
  pub sbp_informer_factory_start : World → World
  -- `cache.WaitForCacheSync` on the `HasSynced` functions of some informers
  pub wait_for_cache_sync : List Informer → World → Bool × World
  -- `go wait.UntilWithContext(workerCtx, c.runWorker, time.Second)` for the worker of a number
  pub go_worker : ℕ → World → World
  -- `<-ctx.Done()`, and `ShutDown` of the queue
  pub await_done : World → World
  pub shut_down : World → World
  -- `go func() { errChan <- f() }()` and the `select` on errChan and a timer of 3 seconds: the value
  -- that errChan gave, or nothing if the timer was first
  pub go_until_timer : (World → Option C.Error × World) → World → Option (Option C.Error) × World

-- Errors of `Start`: one that a call returned, or a text.
pub data StartError (E : Type 0) : Type 0 where
  failed : Failure E → StartError E
  not_synced : String → StartError E

-- The fields of the `Controller` that `Start` writes, and the world. `resolver` is nil before `Start`.
pub record Process {K : Kinds} {C : Cluster K} {W : WorkQueue} (P : Platform C W) : Type 0 where
  pub resolver : Option (State C)
  pub world : P.World

-- A step that changes `S` and may return an error, after which the rest does not run.
abbrev pub Step : Type 0 → Type 0 → Type 0 → Type 0
Step S E A = S → Result E A × S

infixl 5 ◌>>=◌ ◌>>◌
abbrev pub ◌>>=◌ : {S E A B : Type 0} → Step S E A → (A → Step S E B) → Step S E B
◌>>=◌ m f s = let (r, s') = m s in elim r [ err e ↦ (err e, s') | ok a ↦ f a s' ]

abbrev pub ◌>>◌ : {S E B : Type 0} → Step S E (Unit {0}) → Step S E B → Step S E B
m >> k = m >>= λ _. k

-- If a chain of steps returns no error, its first step does not, nor the rest.
pub >>=-eq_ok :
    {S E A B : Type 0} (m : Step S E A) (f : A → Step S E B) (s s'' : S) (b : B)
    → (m >>= f) s ≡ (ok b, s'')
    → (a : A) × (s' : S) × (m s ≡ (ok a, s')) × (f a s' ≡ (ok b, s''))
>>=-eq_ok {S} {E} {A} {B} m f s s'' b h = go (m s) refl
  where
    go :
        (r : Result E A × S)
        → m s ≡ r
        → (a : A) × (s' : S) × (m s ≡ (ok a, s')) × (f a s' ≡ (ok b, s''))
    go (ok a, s') e = (a, s', e, ground arith)
    go (err x, s') e = absurd (ground arith)

-- `if err != nil { return err }`
abbrev accept : {E : Type 0} → Option E → Result (StartError E) (Unit {0})
accept none = ok tt
accept (some e) = err (failed (external e))

abbrev pub synced : {E : Type 0} → String → Bool → Result (StartError E) (Unit {0})
synced message true = ok tt
synced message false = err (not_synced message)

abbrev pub is_ok : {E A : Type 0} → Result E A → Bool
is_ok (ok a) = true
is_ok (err e) = false

abbrev pub declarations : List Declaration
declarations =
    (record { name = "combinedStatus"; type = map_type string_type dyn_type })
    ∷ (record { name = "downsyncClause"; type = map_type string_type dyn_type })
    ∷ []

module _ {K : Kinds} {C : Cluster K} {W : WorkQueue} (P : Platform C W) where
  abbrev Starting : Type 0
  Starting = Step (Process P) (StartError C.Error) (Unit {0})

  -- A call that changes the world and may return an error.
  abbrev try_call : (P.World → Option C.Error × P.World) → Starting
  try_call call p = let (e, w) = call p.world in (accept e, record p { world = w })

  abbrev pub call : (P.World → P.World) → Starting
  call f p = (ok tt, record p { world = f p.world })

  abbrev await_sync : List Informer → String → Starting
  await_sync informers message p =
      let (b, w) = P.wait_for_cache_sync informers p.world in
      (synced message b, record p { world = w })

  unfoldable pub setup_binding_informer : Starting
  setup_binding_informer = try_call (P.add_binding_handler (on_binding C W))

  unfoldable pub setup_combined_status_informer : Starting
  setup_combined_status_informer = try_call (P.add_combined_status_handler (on_combined_status C W))

  unfoldable pub setup_policy_informer : Starting
  setup_policy_informer = try_call (P.add_policy_handler (on_policy C W))

  unfoldable pub new_cel_evaluator : Result (Failure C.Error) P.Env
  new_cel_evaluator = elim (P.new_env declarations) [
    | err e ↦ err (wrapped "failed to create CEL environment" (external e))
    | ok env ↦ ok env
  ]

  abbrev make_evaluator : Starting
  make_evaluator p = (elim new_cel_evaluator [ err f ↦ err (failed f) | ok env ↦ ok tt ], p)

  abbrev set_resolver : C.Server → Starting
  set_resolver server p = (ok tt, record p { resolver = some (new_resolver C server) })

  -- The loop that starts the workers from number `i` on.
  unfoldable pub go_workers : ℕ → ℕ → P.World → P.World
  go_workers i zero w = w
  go_workers i (suc n) w = go_workers (suc i) n (P.go_worker i w)

  -- The deferred `ShutDown` runs last.
  unfoldable pub run : ℕ → P.World → Option C.Error × P.World
  unfolding go_workers
  run workers w = (none, P.shut_down (P.await_done (go_workers 0 workers w)))

  -- The first value of errChan, if it comes before the timer.
  abbrev startup_error : Option (Option C.Error) → Option C.Error
  startup_error none = none
  startup_error (some e) = e

  abbrev go_run : ℕ → Starting
  go_run workers =
      try_call (λ w. let (e, w') = P.go_until_timer (run workers) w in (startup_error e, w'))

  unfoldable pub start_controller : ℕ → C.Server → Starting
  unfolding setup_binding_informer setup_combined_status_informer setup_policy_informer
      new_cel_evaluator run
  start_controller workers server = do
    setup_binding_informer
    setup_combined_status_informer
    setup_policy_informer
    make_evaluator
    set_resolver server
    call P.ks_informer_factory_start
    await_sync (binding_informer ∷ combined_status_informer ∷ [])
        "failed to wait for KubeStellar informers to sync"
    call P.sbp_informer_factory_start
    await_sync (policy_informer ∷ []) "failed to wait for StagedBindingPolicy informers to sync"
    go_run workers
