-- ===== src/Fake/Matching.antt =====
-- `List` of the fake client returns the items that the label selector matches.
use kubestellar_workload_sta.Base.{
  ◌≡◌, ◌↔◌, inl, inr, refl, sym, ◌∙◌, Bool-cases, Bool, true, Option, some, List, [], ◌∷◌, ◌++◌,
  if◌then◌else◌, arith, In,
}
use mathlib.Core.List.{append-nil, append_assoc}
use kubestellar_workload_sta.Run.{done}
use kubestellar_workload_sta.Api.{Kinds, StagedBindingPolicy}
use kubestellar_workload_sta.Client.{Options, list}
use kubestellar_workload_sta.Fake.{
  FakeLibrary, PolicyList, list_object, list_answer, root_list, policy_kind, append_matching,
  selector, list_call, call,
}
use kubestellar_workload_sta.Informers.Resource.{policy_resource}

-- The elements that satisfy a test, in their order.
abbrev keep : {A : Type 0} → (A → Bool) → List A → List A
keep f [] = []
keep f (x ∷ xs) = let rest = keep f xs in if f x then x ∷ rest else rest

In-keep :
    {A : Type 0} (f : A → Bool) (x : A) (xs : List A) → In x (keep f xs) ↔ (In x xs × (f x ≡ true))
In-keep f x [] = ((λ h. absurd h), λ h. absurd h.0)
In-keep f x (y ∷ xs) =
    let (there, back) = In-keep f x xs in
    let test = f y in (ground (arith, there), ground (arith, back))

module _ {K : Kinds} {O : Options} (L : FakeLibrary K O) where
  append_matching-keep :
      (label : L.Selector) (items acc : List (StagedBindingPolicy K))
      → append_matching L label items acc
        ≡ acc ++ keep (λ item. L.matches label item.metadata.labels) items
  unfolding append_matching
  append_matching-keep label [] acc = sym (append-nil acc)
  append_matching-keep label (item ∷ rest) acc =
      elim (Bool-cases (L.matches label item.metadata.labels)) [
        | inl e ↦ rw e (
            append_matching-keep label rest (acc ++ item ∷ [])
            ∙ append_assoc acc (item ∷ [])
                (keep (λ item. L.matches label item.metadata.labels) rest))
        | inr e ↦ rw e (append_matching-keep label rest acc)
      ]

  -- Where the fake's reactions answer a list with a list, `List` returns without a panic a list with its metadata,
  -- and with its items that the label selector of the options matches, or all if there is no such
  -- selector, in their order; and the error that the reactions answer with.
  pub call-list :
      (opts : O.ListOptions) (w w' : L.World) (l : PolicyList K L.ListMeta) (e : Option L.Error)
      → L.invokes
          (root_list policy_resource policy_kind opts)
          (list_object (record { list_meta = L.empty_list_meta; items = [] }))
          w
        ≡ ((some (list_object l), e), w')
      → (found : PolicyList K L.ListMeta) × (call L (list opts) w
          ≡ done (list_answer (some found) e) w')
        × (found.list_meta ≡ l.list_meta)
        × (found.items ≡ keep (λ item. L.matches (selector L opts) item.metadata.labels) l.items)
        × ((item : StagedBindingPolicy K)
            → In item found.items
              ↔ (In item l.items × (L.matches (selector L opts) item.metadata.labels ≡ true)))
  unfolding call list_call
  call-list opts w w' l e h =
      let f : StagedBindingPolicy K → Bool =
        λ item. L.matches (selector L opts) item.metadata.labels in
      let kept = append_matching-keep (selector L opts) l.items [] in
      (
        record l { items = append_matching L (selector L opts) l.items [] },
        ground arith,
        refl,
        kept,
        λ item. rw kept (In-keep f item l.items),
      )
