-- ===== src/Controller/System.antt =====
-- pkg/staged-binding-policy/controller.go: the workers of `run` side by side, with the event handlers and the
-- cluster. A worker is interrupted between the calls of `processNextWorkItem` and of `reconcile`: Get, the
-- lister's, the resolver's, AddRateLimited or Forget, and Done. The queue is not shut down. A panic ends
-- the process.
pub mod Refines
pub mod Kept
pub mod Served
pub mod Round
use Prim.Native.String.{String}
use kubestellar_workload_sta.Base.{
  ℕ, ◌≡◌, refl, Option, none, some, Str, ◌==◌, nat_eq, str_eq, if◌then◌else◌, arith,
}
use kubestellar_workload_sta.Run.{Action, done, pure, ◌>>=◌, ◌>>◌}
use kubestellar_workload_sta.Api.{Kinds, StagedBindingPolicy, Binding}
use kubestellar_workload_sta.Cluster.{Cluster, Failure, ok, err, external, wrapped}
use kubestellar_workload_sta.Lister
use kubestellar_workload_sta.Resolver.{State}
use kubestellar_workload_sta.Resolver.Notes.{
  note_policy, note_binding, note_combined_status, delete_policy,
}
use kubestellar_workload_sta.Controller.{
  WorkQueue, Item, policy_ref, binding_ref, combined_status_ref, object_identifier,
}
use kubestellar_workload_sta.Controller.Events.{Event, on_binding, on_policy, on_combined_status}
use kubestellar_workload_sta.Controller.Reconcile.{
  reconcile, sync_policy, process_binding, process_combined_status, wrap_failure,
}

module _ {K : Kinds} (C : Cluster K) where
  -- What a handler goes on to do once it has read the caches: a call of the resolver, or a return.
  pub data Call : Type 0 where
    to_note_policy : StagedBindingPolicy K → Call
    to_delete_policy : Str → Call
    to_note_binding : Binding → Call
    to_note_combined_status : C.CombinedStatus → Call
    to_return : Option (Failure C.Error) → Call

  abbrev failed : String → C.Error → Call
  failed message e = to_return (some (wrapped message (external e)))

  -- The first half of `reconcile`, which reads the caches.
  unfoldable pub look_up : Item → C.Server → Call
  look_up (policy_ref name) server = elim (Lister.get C name server) [
    | err e ↦
        if C.is_not_found e
        then to_delete_policy name
        else failed "failed to get StagedBindingPolicy from informer cache" e
    | ok sbp ↦ to_note_policy sbp
  ]
  look_up (binding_ref name) server = elim (C.cached_binding name server) [
    | err e ↦
        if C.is_not_found e
        then to_return none
        else failed "failed to get Binding from informer cache" e
    | ok binding ↦ to_note_binding binding
  ]
  look_up (combined_status_ref key) server = elim (C.split_key key) [
    | err e ↦ to_return (some (external e))
    | ok (namespace, name) ↦ elim (C.cached_combined_status namespace name server) [
      | err e ↦
          if C.is_not_found e
          then to_return none
          else failed "failed to get CombinedStatus from informer cache" e
      | ok cs ↦ to_note_combined_status cs
    ]
  ]
  look_up (object_identifier _) server = to_return none

  -- The second half of `reconcile`.
  unfoldable pub make_call : Call → Action (State C) (Option (Failure C.Error))
  make_call (to_note_policy sbp) = do
    e ← note_policy C sbp
    pure (wrap_failure "failed to note StagedBindingPolicy" e)
  make_call (to_delete_policy name) = do delete_policy C name; pure none
  make_call (to_note_binding binding) = do note_binding C binding; pure none
  make_call (to_note_combined_status cs) = do note_combined_status C cs; pure none
  make_call (to_return e) = pure e

  -- The two halves make up `reconcile`.
  pub reconcile-halves :
      (item : Item) (s : State C) → reconcile C item s ≡ make_call (look_up item s.server) s
  unfolding reconcile sync_policy process_binding process_combined_status look_up make_call
  reconcile-halves (policy_ref name) s = ground arith
  reconcile-halves (binding_ref name) s = ground arith
  reconcile-halves (combined_status_ref key) s = ground arith
  reconcile-halves (object_identifier _) s = refl

  -- Where a worker is in `processNextWorkItem`.
  pub data Phase : Type 0 where
    idle : Phase
    taken : Item → Phase
    calling : Item → Call → Phase
    returned : Item → Option (Failure C.Error) → Phase
    settled : Item → Phase

module _ {K : Kinds} (C : Cluster K) (W : WorkQueue) where
  -- The controller's queue and resolver, and its workers by their numbers.
  pub record System : Type 0 where
    pub queue : W.Queue
    pub resolver : State C
    pub phase : ℕ → Phase C

  abbrev pub set_phase : ℕ → Phase C → System → ℕ → Phase C
  set_phase w p s v = if v == w then p else s.phase v

  -- What can happen next: a worker goes on, an event handler runs, or the API server and the caches change.
  pub data Move (s : System) : Type 0 where
    take :
        (w : ℕ) (item : Item) (q : W.Queue)
        → s.phase w ≡ idle
        → W.get s.queue ≡ (some item, q)
        → Move s
    look : (w : ℕ) (item : Item) → s.phase w ≡ taken item → Move s
    call :
        (w : ℕ) (item : Item) (c : Call C) (e : Option (Failure C.Error)) (r : State C)
        → s.phase w ≡ calling item c
        → make_call C c s.resolver ≡ done e r
        → Move s
    settle :
        (w : ℕ) (item : Item) (e : Option (Failure C.Error)) → s.phase w ≡ returned item e → Move s
    finish : (w : ℕ) (item : Item) → s.phase w ≡ settled item → Move s
    policy_event : Event (StagedBindingPolicy K) → Move s
    binding_event : Event Binding → Move s
    combined_status_event : Event C.CombinedStatus → Move s
    outside : C.Server → Move s

  abbrev pub requeue : Option (Failure C.Error) → Item → W.Queue → W.Queue
  requeue none = W.forget
  requeue (some _) = W.add_rate_limited

  unfoldable pub after : (s : System) → Move s → System
  unfolding look_up
  after s (take w item q _ _) = record s { queue = q; phase = set_phase w (taken item) s }
  after s (look w item _) = record s {
    phase = set_phase w (calling item (look_up C item s.resolver.server)) s;
  }
  after s (call w item c e r _ _) = record s {
    resolver = r;
    phase = set_phase w (returned item e) s;
  }
  after s (settle w item e _) = record s {
    queue = requeue e item s.queue;
    phase = set_phase w (settled item) s;
  }
  after s (finish w item _) = record s { queue = W.finish item s.queue; phase = set_phase w idle s }
  after s (policy_event ev) = record s { queue = on_policy C W ev s.queue }
  after s (binding_event ev) = record s { queue = on_binding C W ev s.queue }
  after s (combined_status_event ev) = record s { queue = on_combined_status C W ev s.queue }
  after s (outside server) = record s {
    resolver = record { policies = s.resolver.policies; server = server };
  }

  -- A run of the controller, move by move.
  pub data Trace (s : System) : System → Type 0 where
    start : Trace s s
    move : {t u : System} → Trace s t → (m : Move t) → u ≡ after t m → Trace s u
