-- ===== src/Controller/System/Refines.antt =====
-- Workers side by side move the resolver by its own steps only.
use mathlib.Core.Path.{subst}
use kubestellar_workload_sta.Base.{refl, sym, str_eq, arith}
use kubestellar_workload_sta.Run.{Ensures}
use kubestellar_workload_sta.Api.{Kinds}
use kubestellar_workload_sta.Cluster.{Cluster}
use kubestellar_workload_sta.Resolver.{State}
use kubestellar_workload_sta.Resolver.Bounds.{IsValid}
use kubestellar_workload_sta.Resolver.Reach.{
  Reach-IsValid_from, Reach, here, next, outside as changed,
}
use kubestellar_workload_sta.Controller.{WorkQueue}
use kubestellar_workload_sta.Controller.Reached.{
  note_policy-Reach, delete_policy-Reach, note_binding-Reach, note_combined_status-Reach,
  Reach-trans,
}
use kubestellar_workload_sta.Controller.System.{
  Call, to_note_policy, to_delete_policy, to_note_binding, to_note_combined_status, to_return,
  make_call, System, Move, take, look, call, settle, finish, policy_event, binding_event,
  combined_status_event, outside, after, Trace, start, move,
}

module _ {K : Kinds} (C : Cluster K) where
  make_call-Reach : (c : Call C) (s : State C) → Ensures (make_call C c s) (λ _ s'. Reach C s s')
  unfolding make_call
  make_call-Reach (to_note_policy sbp) s = ground (arith, note_policy-Reach C sbp s)
  make_call-Reach (to_delete_policy name) s = ground (arith, delete_policy-Reach C name s)
  make_call-Reach (to_note_binding b) s = ground (arith, note_binding-Reach C b s)
  make_call-Reach (to_note_combined_status cs) s = ground (arith, note_combined_status-Reach C cs s)
  make_call-Reach (to_return e) s = here

module _ {K : Kinds} {C : Cluster K} {W : WorkQueue} where
  after-Reach : (s : System C W) (m : Move C W s) → Reach C s.resolver (after C W s m).resolver
  unfolding after
  after-Reach s (call w item c e r at returns) =
      let made = make_call-Reach C c s.resolver in
      subst (λ x. Ensures x (λ _ s'. Reach C s.resolver s')) returns made
  after-Reach s (outside server) = next here (changed refl)
  after-Reach s (take w item q _ _) = here
  after-Reach s (look w item _) = here
  after-Reach s (settle w item e _) = here
  after-Reach s (finish w item _) = here
  after-Reach s (policy_event ev) = here
  after-Reach s (binding_event ev) = here
  after-Reach s (combined_status_event ev) = here

  -- A run of the whole controller refines the resolver's steps.
  Trace-Reach : {s t : System C W} → Trace C W s t → Reach C s.resolver t.resolver
  Trace-Reach start = here
  Trace-Reach {s} (move {t} {u} p m e) =
      subst (λ (x : System C W). Reach C s.resolver x.resolver) (sym e)
        (Reach-trans C (Trace-Reach p) (after-Reach t m))

  pub Trace-IsValid :
      (s t : System C W) → Trace C W s t → IsValid C s.resolver → IsValid C t.resolver
  Trace-IsValid s t p valid = Reach-IsValid_from C valid (Trace-Reach p)
