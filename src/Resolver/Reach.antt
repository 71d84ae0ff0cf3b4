-- ===== src/Resolver/Reach.antt =====
-- The resolver as a state machine: any sequence of its methods, by any number of workers, with changes
-- of the cluster in between. The lock makes each method one step. A panic ends the process, so a step
-- is a call that returns.
use kubestellar_workload_sta.Base.{◌≡◌, Option, Str, str_eq, arith}
use kubestellar_workload_sta.Base.Dict.{lookup}
use kubestellar_workload_sta.Run.{done}
use kubestellar_workload_sta.Api.{Kinds, StagedBindingPolicy, Binding}
use kubestellar_workload_sta.Cluster.{Cluster, Failure}
use kubestellar_workload_sta.Resolver.{State, new_resolver}
use kubestellar_workload_sta.Resolver.Notes.{
  note_policy, note_binding, note_combined_status, delete_policy,
}
use kubestellar_workload_sta.Resolver.Bounds.{IsValid}
use kubestellar_workload_sta.Resolver.NoteBounds.{
  note_policy-IsBounded, note_binding-IsBounded, note_combined_status-IsBounded,
  delete_policy-IsBounded,
}

pub data Step {K : Kinds} (C : Cluster K) : State C → State C → Type 0 where
  policy :
      {s s' : State C} (sbp : StagedBindingPolicy K) (e : Option (Failure C.Error))
      → note_policy C sbp s ≡ done e s'
      → Step C s s'
  deletion : {s s' : State C} (name : Str) → delete_policy C name s ≡ done tt s' → Step C s s'
  binding : {s s' : State C} (b : Binding) → note_binding C b s ≡ done tt s' → Step C s s'
  combined_status :
      {s s' : State C} (cs : C.CombinedStatus)
      → note_combined_status C cs s ≡ done tt s'
      → Step C s s'
  -- The API server and the caches change by themselves.
  outside : {s s' : State C} → s'.policies ≡ s.policies → Step C s s'

pub data Reach {K : Kinds} (C : Cluster K) (s : State C) : State C → Type 0 where
  here : Reach C s s
  next : {t u : State C} → Reach C s t → Step C t u → Reach C s u

Step-IsValid :
    {K : Kinds} (C : Cluster K) {s s' : State C} → Step C s s' → IsValid C s → IsValid C s'
Step-IsValid C {s} (policy sbp e h) v j = ground (arith, v j, note_policy-IsBounded C sbp s j)
Step-IsValid C {s} (deletion name h) v j = ground (arith, v j, delete_policy-IsBounded C s j name)
Step-IsValid C {s} (binding b h) v j = ground (arith, v j, note_binding-IsBounded C s j b)
Step-IsValid C {s} (combined_status cs h) v j =
    ground (arith, v j, note_combined_status-IsBounded C j cs s)
Step-IsValid C (outside h) v j = rw h (v j)

pub Reach-IsValid_from :
    {K : Kinds} (C : Cluster K) {s t : State C} → IsValid C s → Reach C s t → IsValid C t
Reach-IsValid_from C v here = v
Reach-IsValid_from C v (next r st) = Step-IsValid C st (Reach-IsValid_from C v r)

new_resolver-IsValid :
    {K : Kinds} (C : Cluster K) (server : C.Server) → IsValid C (new_resolver C server)
unfolding new_resolver lookup
new_resolver-IsValid C server j = tt

-- In every state that the resolver reaches from its creation, by calls of its methods that return
-- and changes of the cluster, each tracked policy has an active index below the number of its stages.
pub Reach-IsValid :
    {K : Kinds} (C : Cluster K) (server : C.Server) {s : State C}
    → Reach C (new_resolver C server) s
    → IsValid C s
Reach-IsValid C server r = Reach-IsValid_from C (new_resolver-IsValid C server) r
