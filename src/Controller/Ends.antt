-- ===== src/Controller/Ends.antt =====
-- A worker ends once the queue is shut down.
use kubestellar_workload_sta.Base.{
  ℕ, zero, suc, ◌≤◌, ◌<◌, ◌≡◌, refl, Bool, true, false, some, arith,
}
use kubestellar_workload_sta.Run.{Run, done, panicked, Ensures}
use kubestellar_workload_sta.Api.{Kinds}
use kubestellar_workload_sta.Cluster.{Cluster}
use kubestellar_workload_sta.Controller.{WorkQueue, Item}
use kubestellar_workload_sta.Controller.Worker.{Controller, process_next_work_item, run_worker}

-- What the client-go queue documents once it is shutting down: it accepts no item, and each `Get` takes one
-- out. `size` counts the items that wait, with those that `Done` will put back since they were added while
-- they were processed.
pub record Drains (W : WorkQueue) (IsShut : W.Queue → Type 0) (size : W.Queue → ℕ) : Type 0 where
  pub get :
      (q : W.Queue) (item : Item)
      → IsShut q
      → (W.get q).0 ≡ some item
      → IsShut ((W.get q).1) × (size ((W.get q).1) < size q)
  pub add_rate_limited :
      (item : Item) (q : W.Queue)
      → IsShut q
      → IsShut (W.add_rate_limited item q) × (size (W.add_rate_limited item q) ≤ size q)
  pub forget :
      (item : Item) (q : W.Queue)
      → IsShut q
      → IsShut (W.forget item q) × (size (W.forget item q) ≤ size q)
  pub finish :
      (item : Item) (q : W.Queue)
      → IsShut q
      → IsShut (W.finish item q) × (size (W.finish item q) ≤ size q)

module _ {K : Kinds} (C : Cluster K) (W : WorkQueue) {IsShut : W.Queue → Type 0}
    {size : W.Queue → ℕ} (drains : Drains W IsShut size) where
  -- The loop goes on with a smaller queue, which is still shut.
  Shrinks : ℕ → Bool → Controller C W → Type 0
  Shrinks n goes_on c = goes_on ≡ true → IsShut c.queue × (size c.queue < n)

  process_next_work_item-Shrinks :
      (c : Controller C W)
      → IsShut c.queue
      → Ensures (process_next_work_item C W c) (Shrinks (size c.queue))
  unfolding process_next_work_item Shrinks
  process_next_work_item-Shrinks c h =
      grind (arith, drains.get, drains.add_rate_limited, drains.forget, drains.finish)

  -- Where the queue is shut down, the loop of the worker ends within one round more than the queue has
  -- items, whatever the reconciliation of these items returns, unless it panics.
  pub run_worker_ends :
      (n : ℕ) (c : Controller C W)
      → IsShut c.queue
      → size c.queue < n
      → Ensures (run_worker C W n c) (λ ended c'. ended ≡ true)
  unfolding run_worker Shrinks
  run_worker_ends zero c h lt = absurd (omega arith)
  run_worker_ends (suc n) c h lt =
      go (process_next_work_item C W c) (process_next_work_item-Shrinks c h) (run_worker_ends n)
    where
      go :
          (r : Run (Controller C W) Bool)
          → Ensures r (Shrinks (size c.queue))
          → ((d : Controller C W)
              → IsShut d.queue
              → size d.queue < n
              → Ensures (run_worker C W n d) (λ ended c'. ended ≡ true))
          → Ensures
              (elim r [
                | panicked p c' ↦ panicked p c'
                | done false c' ↦ done true c'
                | done true c' ↦ run_worker C W n c'
              ])
              (λ ended c'. ended ≡ true)
      go (panicked p c') k ih = tt
      go (done false c') k ih = refl
      go (done true c') k ih = let (shut, smaller) = k refl in ih c' shut (omega arith)
