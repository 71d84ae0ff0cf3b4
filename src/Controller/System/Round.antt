-- ===== src/Controller/System/Round.antt =====
-- A worker that is not interrupted does what `processNextWorkItem` does.
use kubestellar_workload_sta.Base.{
  ℕ, ◌≡◌, ◌≢◌, refl, sym, ◌∙◌, true, Option, none, some, nat_eq, str_eq, arith,
}
use kubestellar_workload_sta.Run.{done}
use kubestellar_workload_sta.Api.{Kinds}
use kubestellar_workload_sta.Cluster.{Cluster, Failure}
use kubestellar_workload_sta.Resolver.{State}
use kubestellar_workload_sta.Controller.{WorkQueue, Item}
use kubestellar_workload_sta.Controller.Reconcile.{reconcile}
use kubestellar_workload_sta.Controller.Worker.{process_next_work_item}
use kubestellar_workload_sta.Controller.System.{
  idle, taken, calling, returned, settled, look_up, reconcile-halves, System, requeue, Move, take,
  look, call, settle, finish, policy_event, binding_event, combined_status_event, outside, after,
  Trace, start, move,
}

module _ {K : Kinds} {C : Cluster K} {W : WorkQueue} (w : ℕ) where
  -- A move of this worker.
  abbrev IsMoveOf : {s : System C W} → Move C W s → Type 0
  IsMoveOf (take v item q _ _) = v ≡ w
  IsMoveOf (look v item _) = v ≡ w
  IsMoveOf (call v item c e r _ _) = v ≡ w
  IsMoveOf (settle v item e _) = v ≡ w
  IsMoveOf (finish v item _) = v ≡ w
  IsMoveOf (policy_event ev) = ⊥
  IsMoveOf (binding_event ev) = ⊥
  IsMoveOf (combined_status_event ev) = ⊥
  IsMoveOf (outside server) = ⊥

  -- In the run this worker moves, and nothing else happens.
  abbrev pub IsUninterrupted : {s t : System C W} → Trace C W s t → Type 0
  IsUninterrupted start = Unit
  IsUninterrupted (move p m e) = IsUninterrupted p × IsMoveOf m

module _ {K : Kinds} (C : Cluster K) (W : WorkQueue) (item : Item)
    (e : Option (Failure C.Error)) where
  -- What the queue holds after the round: an item that failed is added back at the rate limit, any other is
  -- forgotten, and then the item is done.
  abbrev queue_after : W.Queue → W.Queue
  queue_after q =
      W.finish item (elim e [ none ↦ W.forget item q | some _ ↦ W.add_rate_limited item q ])

  process_next_work_item-eq_round :
      (queue q : W.Queue) (s r : State C)
      → W.get queue ≡ (some item, q)
      → reconcile C item s ≡ done e r
      → process_next_work_item C W (record { queue = queue; resolver = s })
        ≡ done true (record { queue = queue_after q; resolver = r })
  unfolding process_next_work_item
  process_next_work_item-eq_round queue q s r g h = ground arith

  -- A round of an idle worker that takes an item and whose reconciliation returns:
  -- `processNextWorkItem` forgets the item if there was no error, else adds it back at the rate
  -- limit, and in both cases is done with it, with the resolver as the reconciliation leaves it;
  -- and there is a run of the controller in which only this worker moves that ends so, with the
  -- worker idle again and the others where they were.
  pub round-Trace :
      (s : System C W) (w : ℕ) (q : W.Queue) (r : State C)
      → s.phase w ≡ idle
      → W.get s.queue ≡ (some item, q)
      → reconcile C item s.resolver ≡ done e r
      → (process_next_work_item C W (record { queue = s.queue; resolver = s.resolver })
          ≡ done true (record { queue = queue_after q; resolver = r }))
        × ((t : System C W) × (p : Trace C W s t) × IsUninterrupted w p
            × (t.queue ≡ queue_after q)
            × (t.resolver ≡ r)
            × (t.phase w ≡ idle)
            × ((v : ℕ) → v ≢ w → t.phase v ≡ s.phase v))
  unfolding after
  round-Trace s w q r i g h =
      let m1 = take w item q i g in
      let s1 = after C W s m1 in
      let p1 : s1.phase w ≡ taken item = ground arith in
      let s2 = after C W s1 (look w item p1) in
      let c = look_up C item s.resolver.server in
      let p2 : s2.phase w ≡ calling item c = ground arith in
      let made = sym (reconcile-halves C item s.resolver) ∙ h in
      let m3 = call w item c e r p2 made in
      let s3 = after C W s2 m3 in
      let p3 : s3.phase w ≡ returned item e = ground arith in
      let s4 = after C W s3 (settle w item e p3) in
      let p4 : s4.phase w ≡ settled item = ground arith in
      let s5 = after C W s4 (finish w item p4) in
      (
        process_next_work_item-eq_round s.queue q s.resolver r g h,
        (
          s5,
          move
              (move (move (move (move start m1 refl) (look w item p1) refl) m3 refl)
                (settle w item e p3) refl)
              (finish w item p4) refl,
          (((((tt, refl), refl), refl), refl), refl),
          requeued e,
          refl,
          ground arith,
          λ v n. ground arith,
        ),
      )
    where
      requeued :
          (f : Option (Failure C.Error))
          → W.finish item (requeue C W f item q)
            ≡ W.finish item (elim f [ none ↦ W.forget item q | some _ ↦ W.add_rate_limited item q ])
      requeued none = refl
      requeued (some _) = refl
