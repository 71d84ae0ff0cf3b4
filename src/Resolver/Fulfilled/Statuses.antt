-- ===== src/Resolver/Fulfilled/Statuses.antt =====
-- When the loop of `attemptConditionLocked` passes an object, in terms of the combined statuses that
-- the cache lists for it.
use kubestellar_workload_sta.Base.{
  ◌≡◌, refl, ◌⊎◌, inl, inr, Option, none, some, true, false, List, [], ◌∷◌, Str, codes, str_eq,
  arith, In, Bool-cases, Bool, ap, ◌∙◌,
}
use mathlib.Core.Option.{none-ne-some, some-injective}
use kubestellar_workload_sta.Strings.{contains}
use kubestellar_workload_sta.Api.{Kinds, Expression, ObjectIdentifier}
use kubestellar_workload_sta.Cluster.{Cluster, Result, ok, err, unstructured}
use kubestellar_workload_sta.Cel.{test_expression}
use kubestellar_workload_sta.Resolver.Condition.{
  satisfied, status_selector, serialize_relevant, check_object, check_objects,
}

module _ {K : Kinds} (C : Cluster K) where
  -- What `serialize_relevant` returns: an error, nothing, or the object of a status of the list whose
  -- name contains the UID, or the value that it started from.
  abbrev IsRelevant : Str → List C.CombinedStatus → C.Unstructured → Type 0
  IsRelevant uid css u =
      (cs : C.CombinedStatus) × In cs css
      × (contains (C.status_name cs) uid ≡ true)
      × (C.to_unstructured cs ≡ ok u)

  serialize_relevant_sound :
      (uid : Str) (css : List C.CombinedStatus) (current : Option C.Unstructured)
      (u : C.Unstructured)
      → serialize_relevant C uid css current ≡ ok (some u)
      → (current ≡ some u) ⊎ IsRelevant uid css u
  unfolding serialize_relevant
  serialize_relevant_sound uid [] current u h = inl (cc)
  serialize_relevant_sound uid (cs ∷ css) current u h =
      go (serialize_relevant_sound uid css) (contains (C.status_name cs) uid) refl
        (C.to_unstructured cs) refl
    where
      later : IsRelevant uid css u → IsRelevant uid (cs ∷ css) u
      later (x, i, c, e) = (x, inr i, c, e)

      go :
          ((v : Option C.Unstructured) (w : C.Unstructured)
            → serialize_relevant C uid css v ≡ ok (some w)
            → (v ≡ some w) ⊎ IsRelevant uid css w)
          → (b : Bool) → contains (C.status_name cs) uid ≡ b
          → (r : Result C.Error C.Unstructured) → C.to_unstructured cs ≡ r
          → (current ≡ some u) ⊎ IsRelevant uid (cs ∷ css) u
      go ih false p r q = elim (ih current u (ground arith)) [
        | inl e ↦ inl e
        | inr k ↦ inr (later k)
      ]
      go ih true p (err e) q = absurd (ground arith)
      go ih true p (ok v) q = elim (ih (some v) u (ground arith)) [
        | inl e ↦ inr (cs, inl refl, p, q ∙ ap ok (some-injective v u e))
        | inr k ↦ inr (later k)
      ]

  -- One object is satisfied by a combined status: it is listed by the object's selector, its name
  -- contains the UID, and the condition tests true on it.
  abbrev pub IsSatisfiedBy :
      C.Server → Str → Str → Expression → ObjectIdentifier → C.CombinedStatus → Type 0
  IsSatisfiedBy server binding_name uid condition obj cs =
      (selector : C.Selector) × (css : List C.CombinedStatus) × (u : C.Unstructured)
      × (status_selector C binding_name obj ≡ some selector)
      × (C.list_combined_statuses selector server ≡ ok css)
      × In cs css
      × (contains (C.status_name cs) uid ≡ true)
      × (C.to_unstructured cs ≡ ok u)
      × (test_expression C condition ((codes "combinedStatus", unstructured u) ∷ []) ≡ true)

  check_object_parts :
      (server : C.Server) (binding_name uid : Str) (condition : Expression) (obj : ObjectIdentifier)
      → check_object C server binding_name uid condition obj ≡ satisfied
      → (selector : C.Selector) × (css : List C.CombinedStatus) × (u : C.Unstructured)
        × (status_selector C binding_name obj ≡ some selector)
        × (C.list_combined_statuses selector server ≡ ok css)
        × (serialize_relevant C uid css none ≡ ok (some u))
        × (test_expression C condition ((codes "combinedStatus", unstructured u) ∷ []) ≡ true)
  unfolding check_object
  check_object_parts server binding_name uid condition obj h = ground arith

  pub check_object_sound :
      (server : C.Server) (binding_name uid : Str) (condition : Expression) (obj : ObjectIdentifier)
      → check_object C server binding_name uid condition obj ≡ satisfied
      → (cs : C.CombinedStatus) × IsSatisfiedBy server binding_name uid condition obj cs
  check_object_sound server binding_name uid condition obj h =
      let (selector, css, u, a, b, c, t) =
        check_object_parts server binding_name uid condition obj h in
      elim (serialize_relevant_sound uid css none u c) [
        | inl e ↦ absurd (none-ne-some u e)
        | inr (cs, i, q, r) ↦ (cs, (selector, css, u, a, b, i, q, r, t))
      ]

  -- The loop over the objects passes exactly when it passes each of them.
  pub check_objects-satisfied :
      (server : C.Server) (binding_name uid : Str) (condition : Expression)
      (objs : List ObjectIdentifier)
      → check_objects C server binding_name uid condition objs ≡ satisfied
      → (obj : ObjectIdentifier) → In obj objs
      → check_object C server binding_name uid condition obj ≡ satisfied
  unfolding check_objects
  check_objects-satisfied server binding_name uid condition [] h obj i = absurd i
  check_objects-satisfied server binding_name uid condition (x ∷ objs) h obj (inl e) =
      rw e (ground arith)
  check_objects-satisfied server binding_name uid condition (x ∷ objs) h obj (inr i) =
      check_objects-satisfied server binding_name uid condition objs (ground arith) obj i

  pub check_objects-of_all :
      (server : C.Server) (binding_name uid : Str) (condition : Expression)
      (objs : List ObjectIdentifier)
      → ((obj : ObjectIdentifier)
          → In obj objs
          → check_object C server binding_name uid condition obj ≡ satisfied)
      → check_objects C server binding_name uid condition objs ≡ satisfied
  unfolding check_objects
  check_objects-of_all server binding_name uid condition [] h = refl
  check_objects-of_all server binding_name uid condition (x ∷ objs) h = ground (
    arith,
    h x (inl refl),
    check_objects-of_all server binding_name uid condition objs (λ obj i. h obj (inr i)),
  )

  -- If all statuses of the list whose names contain the UID are one and the same, the loop returns
  -- its object.
  serialize_relevant_unique :
      (uid : Str) (cs : C.CombinedStatus) (u : C.Unstructured)
      → contains (C.status_name cs) uid ≡ true
      → C.to_unstructured cs ≡ ok u
      → (css : List C.CombinedStatus) (current : Option C.Unstructured)
      → ((x : C.CombinedStatus) → In x css → contains (C.status_name x) uid ≡ true → x ≡ cs)
      → (current ≡ some u) ⊎ In cs css
      → serialize_relevant C uid css current ≡ ok (some u)
  unfolding serialize_relevant
  serialize_relevant_unique uid cs u c e [] current all (inl p) = ap ok p
  serialize_relevant_unique uid cs u c e [] current all (inr i) = absurd i
  serialize_relevant_unique uid cs u c e (x ∷ css) current all found =
      let rest = λ (v : Option C.Unstructured).
        serialize_relevant_unique uid cs u c e css v (λ y i. all y (inr i)) in
      elim (Bool-cases (contains (C.status_name x) uid)) [
        | inl p ↦ ground (arith, all x (inl refl) p, rest (some u) (inl refl))
        | inr p ↦
            let kept : (current ≡ some u) ⊎ In cs css = elim found [
              | inl q ↦ inl q
              | inr (inl q) ↦ absurd (ground arith)
              | inr (inr i) ↦ inr i
            ] in
            ground (arith, rest current kept)
      ]

  -- A status that satisfies the condition satisfies the object, if no other status of the list has
  -- the UID in its name.
  pub check_object_complete :
      (server : C.Server) (binding_name uid : Str) (condition : Expression) (obj : ObjectIdentifier)
      (cs : C.CombinedStatus) (h : IsSatisfiedBy server binding_name uid condition obj cs)
      → ((x : C.CombinedStatus) → In x h.1 → contains (C.status_name x) uid ≡ true → x ≡ cs)
      → check_object C server binding_name uid condition obj ≡ satisfied
  unfolding check_object
  check_object_complete server binding_name uid condition obj cs (sel, [], u, a, b, i, q, r, t)
        all =
      absurd i
  check_object_complete server binding_name uid condition obj cs (sel, x ∷ css, u, a, b, i, q, r, t)
        all =
      ground (arith, serialize_relevant_unique uid cs u q r (x ∷ css) none all (inr i))
