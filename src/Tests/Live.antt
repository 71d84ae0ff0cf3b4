-- ===== src/Tests/Live.antt =====
-- The theorem on the BindingPolicies that live, on the cluster in memory.
use kubestellar_workload_sta.Base.{
  ◌+◌, ◌≡◌, ◌⊎◌, refl, Bool, true, false, Option, none, some, [], ◌∷◌, Str, codes, str_eq, nat_eq,
  get_elem?, arith,
}
use kubestellar_workload_sta.Base.Dict.{lookup, lookup-insert, lookup-erase}
use kubestellar_workload_sta.Api.{Stage}
use kubestellar_workload_sta.Resolver.{PolicyData, new_resolver}
use kubestellar_workload_sta.Resolver.Exclusive.{IsApiServer}
use kubestellar_workload_sta.Resolver.Exclusive.Steps.{still, rolled, any_binding}
use kubestellar_workload_sta.Resolver.Exclusive.Runs.{live_alone}
use kubestellar_workload_sta.Tests.Fixture.{kinds, cluster, Server}
use kubestellar_workload_sta.Tests.Runs.{app, dev, prod, policy, server, binding, bound}
use kubestellar_workload_sta.Tests.Staging.{ranges}

abbrev is_there : Option Str → Bool
is_there none = false
is_there (some _) = true

abbrev lives : Server → Str → Bool
lives s name = is_there (lookup name s.binding_policies)

is_api_server : IsApiServer cluster lives
is_api_server = record {
  deleted = λ n s. grind (arith, lookup-erase n n s.binding_policies);
  delete_adds_none = λ n m s. grind (arith, lookup-erase m n s.binding_policies);
  create_adds_one =
      λ p m s. grind (arith, λ (uid : Str). lookup-insert m p.name uid s.binding_policies);
  get_adds_none = λ n m s l. l;
  update_adds_none = λ sbp m s l. ground arith;
}

-- The policy is noted, its binding is noted, and the policy has moved to its second stage.
live_alone_example :
    (codes "prod" ≡ codes "prod")
    × ((d : PolicyData kinds) × (stage : Stage kinds) × (lookup app
            (bound (dev ∷ prod ∷ []) true).policies
          ≡ some d)
        × ((get_elem? d.stages d.active_index ≡ some stage)
            ⊎ (get_elem? d.stages (d.active_index + 1) ≡ some stage))
        × (codes "prod" ≡ stage.name))
unfolding bound
live_alone_example =
    live_alone cluster ranges is_api_server (policy (dev ∷ prod ∷ []))
      (new_resolver cluster (server (dev ∷ prod ∷ []) true)) _ (bound (dev ∷ prod ∷ []) true) none
      refl (refl, (refl, tt)) (λ key. tt) (λ t plain l. absurd (cc)) refl
      (rolled still (any_binding binding refl)) (codes "prod") (codes "prod") refl refl refl refl
