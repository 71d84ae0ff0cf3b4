-- ===== src/Tests/Workers.antt =====
-- The theorems on workers side by side, at a run of two workers on the cluster in memory.
use mathlib.Core.Path.{subst}
use kubestellar_workload_sta.Base.{
  ℕ, ◌≡◌, ◌≢◌, ◌⊎◌, inl, inr, refl, true, none, some, List, [], ◌∷◌, In, nat_eq, str_eq, arith,
}
use kubestellar_workload_sta.Run.{done}
use kubestellar_workload_sta.Lister
use kubestellar_workload_sta.Resolver.{new_resolver}
use kubestellar_workload_sta.Controller.{Item, policy_ref}
use kubestellar_workload_sta.Controller.Events.{added}
use kubestellar_workload_sta.Controller.Reconcile.{reconcile, sync_policy}
use kubestellar_workload_sta.Controller.Worker.{process_next_work_item}
use kubestellar_workload_sta.Controller.System.{
  idle, look_up, make_call, to_note_policy, System, take, look, call, binding_event, after, Trace,
  start, move,
}
use kubestellar_workload_sta.Controller.System.Refines.{Trace-IsValid}
use kubestellar_workload_sta.Resolver.Bounds.{IsValid}
use kubestellar_workload_sta.Base.Dict.{lookup}
use kubestellar_workload_sta.Controller.System.Kept.{Keeps}
use kubestellar_workload_sta.Controller.System.Served.{Kept, never_lost}
use kubestellar_workload_sta.Controller.System.Round.{IsUninterrupted, round-Trace}
use kubestellar_workload_sta.Tests.Fixture.{cluster}
use kubestellar_workload_sta.Tests.Queue.{list_queue, state_after}
use kubestellar_workload_sta.Tests.Runs.{app, dev, prod, policy, server, binding, run_note}

keeps : Keeps list_queue In
keeps = record {
  add = λ item other q h. inr h;
  add_rate_limited = λ item other q h. inr h;
  added_back = λ item q. inl refl;
  forget = λ item other q h. h;
  finish = λ item other q h. h;
  get = λ item other q q' h g. taken_or_left item other q q' h g;
}
  where
    taken_or_left :
        (item other : Item) (q q' : List Item)
        → In item q
        → list_queue.get q ≡ (some other, q')
        → (other ≡ item) ⊎ In item q'
    taken_or_left item other (x ∷ xs) q' (inl e) g = inl (ground arith)
    taken_or_left item other (x ∷ xs) q' (inr m) g =
        let left : xs ≡ q' = ground arith in inr (subst (In item) left m)
    taken_or_left item other [] q' h g = elim h [ ]

-- The policy waits in the queue, and the second worker takes it while an event of its binding arrives.
abbrev first : System cluster list_queue
first = record {
  queue = policy_ref app ∷ [];
  resolver = new_resolver cluster (server (dev ∷ prod ∷ []) true);
  phase = λ w. idle;
}

abbrev second : System cluster list_queue
second = after cluster list_queue first (take 1 (policy_ref app) [] refl refl)

abbrev third : System cluster list_queue
third = after cluster list_queue second (binding_event (added binding))

third-Trace : Trace cluster list_queue first third
third-Trace =
    move (move start (take 1 (policy_ref app) [] refl refl) refl) (binding_event (added binding))
      refl

never_lost_example : Kept cluster list_queue (policy_ref app) first In third
never_lost_example = never_lost keeps (policy_ref app) first third (inl refl) third-Trace

round-Trace_example :
    (process_next_work_item cluster list_queue
        (record { queue = first.queue; resolver = first.resolver })
      ≡ done true (record {
        queue = [];
        resolver = state_after (reconcile cluster (policy_ref app) first.resolver);
      }))
    × ((t : System cluster list_queue) × (p : Trace cluster list_queue first t) × IsUninterrupted 1
          p
        × (t.queue ≡ [])
        × (t.resolver ≡ state_after (reconcile cluster (policy_ref app) first.resolver))
        × (t.phase 1 ≡ idle)
        × ((v : ℕ) → v ≢ 1 → t.phase v ≡ first.phase v))
unfolding run_note reconcile sync_policy Lister.get state_after
round-Trace_example =
    round-Trace cluster list_queue (policy_ref app) none first 1 []
      (state_after (reconcile cluster (policy_ref app) first.resolver)) refl refl refl

unfoldable fourth : System cluster list_queue
unfolding after nat_eq look_up
fourth = after cluster list_queue third (look 1 (policy_ref app) refl)

-- The policy has been noted: the last thing that the worker does in this run is to call the resolver.
unfoldable fifth : System cluster list_queue
unfolding fourth run_note make_call state_after Lister.get
fifth = after cluster list_queue fourth (
    call 1 (policy_ref app) (to_note_policy (policy (dev ∷ prod ∷ []))) none
      (state_after (run_note (policy (dev ∷ prod ∷ [])) first.resolver)) refl refl)

first-IsValid : IsValid cluster first.resolver
unfolding lookup new_resolver
first-IsValid name = tt

Trace-IsValid_example : IsValid cluster fifth.resolver
unfolding fifth
Trace-IsValid_example =
    Trace-IsValid first fifth
      (move (move third-Trace (look 1 (policy_ref app) refl) refl)
        (call 1 (policy_ref app) (to_note_policy (policy (dev ∷ prod ∷ []))) none
          (state_after (run_note (policy (dev ∷ prod ∷ [])) first.resolver)) refl refl)
        refl)
      first-IsValid
