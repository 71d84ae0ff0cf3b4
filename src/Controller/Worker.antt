-- ===== src/Controller/Worker.antt =====
-- `processNextWorkItem` and `runWorker`.
use kubestellar_workload_sta.Base.{ℕ, zero, suc, Bool, true, false, Option, none, some}
use kubestellar_workload_sta.Run.{Run, done, panicked, Action}
use kubestellar_workload_sta.Api.{Kinds}
use kubestellar_workload_sta.Cluster.{Cluster, Failure}
use kubestellar_workload_sta.Resolver.{State}
use kubestellar_workload_sta.Controller.{WorkQueue, Item}
use kubestellar_workload_sta.Controller.Reconcile.{reconcile}

pub record Controller {K : Kinds} (C : Cluster K) (W : WorkQueue) : Type 0 where
  pub queue : W.Queue
  pub resolver : State C

module _ {K : Kinds} (C : Cluster K) (W : WorkQueue) where
  -- The rest of the item's processing: the deferred `Done` runs after a return and after a panic.
  abbrev settle_item :
      Item → W.Queue → Run (State C) (Option (Failure C.Error)) → Run (Controller C W) Bool
  settle_item item q (done none r) =
      done true (record { queue = W.finish item (W.forget item q); resolver = r })
  settle_item item q (done (some f) r) =
      done true (record { queue = W.finish item (W.add_rate_limited item q); resolver = r })
  settle_item item q (panicked p r) = panicked p (record { queue = W.finish item q; resolver = r })

  unfoldable pub process_next_work_item : Action (Controller C W) Bool
  process_next_work_item c =
      let (next, q) = W.get c.queue in
      elim next [
        | none ↦ done false (record c { queue = q })
        | some item ↦ settle_item item q (reconcile C item c.resolver)
      ]

  -- `for c.processNextWorkItem(ctx) {}` for at most the given number of rounds; the value says
  -- whether the loop has ended.
  unfoldable pub run_worker : ℕ → Action (Controller C W) Bool
  run_worker zero c = done false c
  run_worker (suc n) c = elim (process_next_work_item c) [
    | panicked p c' ↦ panicked p c'
    | done false c' ↦ done true c'
    | done true c' ↦ run_worker n c'
  ]
