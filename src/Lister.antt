-- ===== src/Lister.antt =====
-- pkg/generated/listers/community/v1alpha1/stagedbindingpolicy.go: the lister over the informer's
-- indexer, which is `policy_by_key` of the cluster.
use mathlib.Core.List.{append-nil, append_assoc}
use kubestellar_workload_sta.Base.{
  ◌≡◌, sym, ap, ◌∙◌, Option, none, some, List, [], ◌∷◌, ◌++◌, Str, codes,
}
use kubestellar_workload_sta.Api.{Kinds, StagedBindingPolicy}
use kubestellar_workload_sta.Cluster.{Cluster, Result, ok, err}

module _ {K : Kinds} (C : Cluster K) where
  unfoldable pub get : Str → C.Server → Result C.Error (StagedBindingPolicy K)
  get name server = elim (C.policy_by_key name server) [
    | err e ↦ err e
    | ok none ↦ err (C.new_not_found (codes "stagedbindingpolicy") name)
    | ok (some sbp) ↦ ok sbp
  ]

-- The function that `List` gives to `cache.ListAll`, on the objects that it is called with.
append_all : {A : Type 0} → List A → List A → List A
append_all [] ret = ret
append_all (m ∷ visited) ret = append_all visited (ret ++ m ∷ [])

-- `List`, with `cache.ListAll` by the objects that it visits and its error.
unfoldable pub list :
    {Selector Server Error A : Type 0}
    → (Selector → Server → List A × Option Error)
    → Selector
    → Server
    → List A × Option Error
unfolding append_all
list list_all selector server =
    let (visited, e) = list_all selector server in (append_all visited [], e)

append_all-append : {A : Type 0} (visited ret : List A) → append_all visited ret ≡ ret ++ visited
unfolding append_all
append_all-append [] ret = sym (append-nil ret)
append_all-append (m ∷ visited) ret =
    append_all-append visited (ret ++ m ∷ []) ∙ append_assoc ret (m ∷ []) visited

-- `List` returns the objects that `cache.ListAll` visits, in its order.
list_lem :
    {Selector Server Error A : Type 0} (list_all : Selector → Server → List A × Option Error)
    (selector : Selector) (server : Server)
    → list list_all selector server ≡ list_all selector server
unfolding list
list_lem list_all selector server =
    ap (λ v. (v, (list_all selector server).1)) (append_all-append (list_all selector server).0 [])
