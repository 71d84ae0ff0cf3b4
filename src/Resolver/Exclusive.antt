-- ===== src/Resolver/Exclusive.antt =====
-- Which BindingPolicies of a policy's stages live at the API server while the policy is rolled out.
pub mod Calls
pub mod Attempts
pub mod Alone
pub mod Noted
pub mod Steps
pub mod Runs
use kubestellar_workload_sta.Base.{
  ℕ, ◌+◌, ◌≡◌, ◌⊎◌, ◌∙◌, sym, ap, Bool, true, false, Option, none, some, List, [], ◌∷◌, Str,
  get_elem?, zero, suc, str_eq, arith,
}
use kubestellar_workload_sta.Base.Dict.{lookup}
use kubestellar_workload_sta.Strings.{split, contains, stage_name, stage_separator}
use kubestellar_workload_sta.Strings.StageName.{IsClean, split-stage_name}
use kubestellar_workload_sta.Api.{Kinds, Stage, StagedBindingPolicy, BindingPolicy}
use kubestellar_workload_sta.Cluster.{Cluster, ok, err}
use kubestellar_workload_sta.Resolver.{PolicyData, State}
use kubestellar_workload_sta.Resolver.Ensure.{delete_failure}

-- What the API server does to the BindingPolicies that live: that are there by their name and are not being
-- deleted. A deletion that is taken, or finds none, leaves none; a creation, whatever it returns,
-- adds the one or none; no other call adds any.
pub record IsApiServer {K : Kinds} (C : Cluster K) (lives : C.Server → Str → Bool) : Type 0 where
  pub deleted :
      (n : Str) (s : C.Server)
      → delete_failure C (C.delete_binding_policy n s).0 ≡ none
      → lives (C.delete_binding_policy n s).1 n ≡ false
  pub delete_adds_none :
      (n m : Str) (s : C.Server) → lives (C.delete_binding_policy n s).1 m ≡ true → lives s m ≡ true
  pub create_adds_one :
      (p : BindingPolicy K) (m : Str) (s : C.Server)
      → lives (C.create_binding_policy p s).1 m ≡ true
      → (m ≡ p.name) ⊎ (lives s m ≡ true)
  pub get_adds_none :
      (n m : Str) (s : C.Server) → lives (C.get_policy n s).1 m ≡ true → lives s m ≡ true
  pub update_adds_none :
      (sbp : StagedBindingPolicy K) (m : Str) (s : C.Server)
      → lives (C.update_policy_status sbp s).1 m ≡ true
      → lives s m ≡ true

-- A stage's name without the separator of names.
abbrev pub IsPlain : Str → Type 0
IsPlain t = contains t stage_separator ≡ false

abbrev pub ArePlain : {K : Kinds} → List (Stage K) → Type 0
ArePlain [] = Unit
ArePlain (stage ∷ stages) = IsPlain stage.name × ArePlain stages

pub ArePlain-get_elem? :
    {K : Kinds} (stages : List (Stage K)) (i : ℕ) {stage : Stage K}
    → ArePlain stages
    → get_elem? stages i ≡ some stage
    → IsPlain stage.name
ArePlain-get_elem? [] i plain h = absurd (cc)
ArePlain-get_elem? (stage ∷ stages) zero plain h = ground (arith, plain.0)
ArePlain-get_elem? (stage ∷ stages) (suc i) plain h = ArePlain-get_elem? stages i plain.1 h

-- Such names give each stage of each policy a BindingPolicy of its own.
pub stage_name-injective :
    (a b t u : Str)
    → IsClean a
    → IsPlain t
    → IsClean b
    → IsPlain u
    → stage_name a t ≡ stage_name b u
    → (a ≡ b) × (t ≡ u)
stage_name-injective a b t u clean plain clean' plain' e =
    let same : a ∷ t ∷ [] ≡ b ∷ u ∷ [] =
      sym (split-stage_name a t clean plain)
      ∙ ap (λ n. split n stage_separator) e
      ∙ split-stage_name b u clean' plain' in
    ground arith

abbrev pub EntryIsPlain : {K : Kinds} → Str → Option (PolicyData K) → Type 0
EntryIsPlain key none = Unit
EntryIsPlain key (some d) = IsClean key × ArePlain d.stages

-- All tracked policies and their stages have such names.
abbrev pub AllPlain : {K : Kinds} {C : Cluster K} → State C → Type 0
AllPlain s = (key : Str) → EntryIsPlain key (lookup key s.policies)
