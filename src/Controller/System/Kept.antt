-- ===== src/Controller/System/Kept.antt =====
-- What one move of the controller does to a reference: in the queue, and in a worker's hands.
use kubestellar_workload_sta.Base.{
  ℕ, ◌≡◌, ◌⊎◌, inl, inr, refl, Option, none, some, nat_eq, arith, Str, str_eq,
}
use kubestellar_workload_sta.Api.{Kinds, StagedBindingPolicy, Binding}
use kubestellar_workload_sta.Cluster.{Cluster, Failure}
use kubestellar_workload_sta.Controller.{
  WorkQueue, Item, policy_ref, binding_ref, combined_status_ref,
}
use kubestellar_workload_sta.Controller.Events.{
  Event, added, updated, deleted, on_binding, on_policy, on_combined_status,
  enqueue_combined_status,
}
use kubestellar_workload_sta.Controller.System.{
  Call, taken, calling, returned, System, Move, take, look, call, settle, finish, policy_event,
  binding_event, combined_status_event, outside, after,
}

-- What client-go documents of a queue that is not shut down: an item that is added waits, at once or after a
-- delay, also while it is processed, and it waits until it is taken.
pub record Keeps (W : WorkQueue) (Waits : Item → W.Queue → Type 0) : Type 0 where
  pub add : (item other : Item) (q : W.Queue) → Waits item q → Waits item (W.add other q)
  pub add_rate_limited :
      (item other : Item) (q : W.Queue) → Waits item q → Waits item (W.add_rate_limited other q)
  pub added_back : (item : Item) (q : W.Queue) → Waits item (W.add_rate_limited item q)
  pub forget : (item other : Item) (q : W.Queue) → Waits item q → Waits item (W.forget other q)
  pub finish : (item other : Item) (q : W.Queue) → Waits item q → Waits item (W.finish other q)
  pub get :
      (item other : Item) (q q' : W.Queue)
      → Waits item q
      → W.get q ≡ (some other, q')
      → (other ≡ item) ⊎ Waits item q'

module _ {K : Kinds} (C : Cluster K) {W : WorkQueue} {Waits : Item → W.Queue → Type 0}
    (keeps : Keeps W Waits) (item : Item) where
  on_policy-Keeps :
      (ev : Event (StagedBindingPolicy K)) (q : W.Queue)
      → Waits item q
      → Waits item (on_policy C W ev q)
  unfolding on_policy
  on_policy-Keeps (added p) q h = keeps.add item _ q h
  on_policy-Keeps (updated old new) q h =
      ground (arith, keeps.add item (policy_ref new.metadata.name) q h)
  on_policy-Keeps (deleted d) q h = keeps.add item _ q h

  on_binding-Keeps :
      (ev : Event Binding) (q : W.Queue) → Waits item q → Waits item (on_binding C W ev q)
  unfolding on_binding
  on_binding-Keeps (added p) q h = keeps.add item _ q h
  on_binding-Keeps (updated old new) q h =
      ground (arith, keeps.add item (binding_ref new.metadata.name) q h)
  on_binding-Keeps (deleted d) q h = keeps.add item _ q h

  enqueue_combined_status-Keeps :
      (cs : C.CombinedStatus) (q : W.Queue)
      → Waits item q
      → Waits item (enqueue_combined_status C W cs q)
  unfolding enqueue_combined_status
  enqueue_combined_status-Keeps cs q h =
      grind (arith, λ (key : Str). keeps.add item (combined_status_ref key) q h)

  on_combined_status-Keeps :
      (ev : Event C.CombinedStatus) (q : W.Queue)
      → Waits item q
      → Waits item (on_combined_status C W ev q)
  unfolding on_combined_status
  on_combined_status-Keeps (added p) q h = enqueue_combined_status-Keeps p q h
  on_combined_status-Keeps (updated old new) q h =
      ground (arith, enqueue_combined_status-Keeps new q h)
  on_combined_status-Keeps (deleted d) q h = enqueue_combined_status-Keeps _ q h

  -- What waits is kept, or a worker takes it.
  pub Waits-after :
      (t : System C W) (m : Move C W t)
      → Waits item t.queue
      → Waits item (after C W t m).queue ⊎ ((w : ℕ) × ((after C W t m).phase w ≡ taken item))
  unfolding after
  Waits-after t (take w other q _ g) h = elim (keeps.get item other t.queue q h g) [
    | inl same ↦ inr (w, ground arith)
    | inr l ↦ inl l
  ]
  Waits-after t (settle w other none _) h = inl (keeps.forget item other t.queue h)
  Waits-after t (settle w other (some f) _) h = inl (keeps.add_rate_limited item other t.queue h)
  Waits-after t (finish w other _) h = inl (keeps.finish item other t.queue h)
  Waits-after t (policy_event ev) h = inl (on_policy-Keeps ev t.queue h)
  Waits-after t (binding_event ev) h = inl (on_binding-Keeps ev t.queue h)
  Waits-after t (combined_status_event ev) h = inl (on_combined_status-Keeps ev t.queue h)
  Waits-after t (look w other _) h = inl h
  Waits-after t (call w other c e r _ _) h = inl h
  Waits-after t (outside server) h = inl h

module _ {K : Kinds} {C : Cluster K} {W : WorkQueue} (item : Item) where
  -- A reference that a worker has taken stays with it until it looks it up.
  pub taken-after :
      (t : System C W) (m : Move C W t) (w : ℕ)
      → t.phase w ≡ taken item
      → ((after C W t m).phase w ≡ taken item)
        ⊎ ((p : t.phase w ≡ taken item) × (after C W t m ≡ after C W t (look w item p)))
  unfolding after
  taken-after t (look v other p) w h = elim (nat_eq.dec w v) [
    | yes q ↦ let same : other ≡ item = ground arith in inr (h, rw (same, q) refl)
    | no n ↦ inl (ground arith)
  ]
  taken-after t (take v other q p _) w h = inl (ground arith)
  taken-after t (call v other c e r p _) w h = inl (ground arith)
  taken-after t (settle v other e p) w h = inl (ground arith)
  taken-after t (finish v other p) w h = inl (ground arith)
  taken-after t (policy_event ev) w h = inl h
  taken-after t (binding_event ev) w h = inl h
  taken-after t (combined_status_event ev) w h = inl h
  taken-after t (outside server) w h = inl h

  -- A reference that a worker has looked up stays with it until its reconciliation returns.
  pub calling-after :
      (t : System C W) (m : Move C W t) (w : ℕ) (c : Call C)
      → t.phase w ≡ calling item c
      → ((after C W t m).phase w ≡ calling item c)
        ⊎ ((e : Option (Failure C.Error)) × ((after C W t m).phase w ≡ returned item e))
  unfolding after
  calling-after t (call v other c' e r p _) w c h = elim (nat_eq.dec w v) [
    | yes q ↦ inr (e, ground arith)
    | no n ↦ inl (ground arith)
  ]
  calling-after t (look v other p) w c h = inl (ground arith)
  calling-after t (take v other q p _) w c h = inl (ground arith)
  calling-after t (settle v other e p) w c h = inl (ground arith)
  calling-after t (finish v other p) w c h = inl (ground arith)
  calling-after t (policy_event ev) w c h = inl h
  calling-after t (binding_event ev) w c h = inl h
  calling-after t (combined_status_event ev) w c h = inl h
  calling-after t (outside server) w c h = inl h

  -- A reference whose reconciliation failed stays with the worker until it is added back.
  pub returned-after :
      (t : System C W) (m : Move C W t) (w : ℕ) (f : Failure C.Error)
      → t.phase w ≡ returned item (some f)
      → ((after C W t m).phase w ≡ returned item (some f))
        ⊎ ((after C W t m).queue ≡ W.add_rate_limited item t.queue)
  unfolding after
  returned-after t (settle v other e p) w f h = elim (nat_eq.dec w v) [
    | yes q ↦
        let same : other ≡ item = ground arith in
        let failed : e ≡ some f = ground arith in inr (rw (same, failed) refl)
    | no n ↦ inl (ground arith)
  ]
  returned-after t (call v other c' e r p _) w f h = inl (ground arith)
  returned-after t (look v other p) w f h = inl (ground arith)
  returned-after t (take v other q p _) w f h = inl (ground arith)
  returned-after t (finish v other p) w f h = inl (ground arith)
  returned-after t (policy_event ev) w f h = inl h
  returned-after t (binding_event ev) w f h = inl h
  returned-after t (combined_status_event ev) w f h = inl h
  returned-after t (outside server) w f h = inl h
