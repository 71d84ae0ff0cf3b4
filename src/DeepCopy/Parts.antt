-- ===== src/DeepCopy/Parts.antt =====
-- Deep copies of plain values, of arrays and through pointers keep the promise of their parts.
use kubestellar_workload_sta.Base.{
  ◌≡◌, ◌∙◌, refl, Option, none, some, List, [], ◌∷◌, length, get_elem?, arith,
}
use kubestellar_workload_sta.DeepCopy.{Address, Copy, pure, Region, copy_pointer, copy_elements}
use kubestellar_workload_sta.DeepCopy.Copier.{
  get_elem?-push, get_elem?-length, free_of_KeepsCells, kept, View, IsKeeping, IsCopier, IsRegion,
  PointerReads, PointerIsFresh, ElementsRead, ElementsAreFresh, pointer_view, elements_view,
  value_view,
}

module _ {M : Type 0} {Keeps : M → M → Type 0} (keeping : IsKeeping Keeps) where
  pub pure-IsCopier :
      {A : Type 0} (f : A → A) → ((a : A) → f a ≡ a) → IsCopier Keeps value_view (λ a. pure (f a))
  pure-IsCopier f e = record {
    copies = λ m a v r. (f a, m, refl, e a ∙ r, tt, keeping.self m);
    stable = λ m m' a v k r. r;
    fresh_stable = λ m m1 m2 a k h. tt;
    fresh_older = λ m0 m m1 a k h. tt;
  }

  module _ {A V : Type 0} {view : View M A V} {copy : A → Copy M A}
      (copier : IsCopier Keeps view copy) where
    elements_stable :
        (m m' : M) (xs : List A) (vs : List V)
        → Keeps m m'
        → ElementsRead view m xs vs
        → ElementsRead view m' xs vs
    elements_stable m m' [] [] k r = tt
    elements_stable m m' [] (v ∷ vs) k r = absurd r
    elements_stable m m' (a ∷ xs) [] k r = absurd r
    elements_stable m m' (a ∷ xs) (v ∷ vs) k r =
        (copier.stable m m' a v k r.0, elements_stable m m' xs vs k r.1)

    elements_fresh_stable :
        (m m1 m2 : M) (xs : List A)
        → Keeps m1 m2
        → ElementsAreFresh view m m1 xs
        → ElementsAreFresh view m m2 xs
    elements_fresh_stable m m1 m2 [] k h = tt
    elements_fresh_stable m m1 m2 (a ∷ xs) k h =
        (copier.fresh_stable m m1 m2 a k h.0, elements_fresh_stable m m1 m2 xs k h.1)

    elements_fresh_older :
        (m0 m m1 : M) (xs : List A)
        → Keeps m0 m
        → ElementsAreFresh view m m1 xs
        → ElementsAreFresh view m0 m1 xs
    elements_fresh_older m0 m m1 [] k h = tt
    elements_fresh_older m0 m m1 (a ∷ xs) k h =
        (copier.fresh_older m0 m m1 a k h.0, elements_fresh_older m0 m m1 xs k h.1)

    elements-copies :
        (m : M) (xs : List A) (vs : List V)
        → ElementsRead view m xs vs
        → (xs' : List A) × (m' : M) × (copy_elements copy xs m ≡ some (xs', m'))
          × ElementsRead view m' xs' vs
          × ElementsAreFresh view m m' xs'
          × Keeps m m'
    unfolding copy_elements
    elements-copies m [] [] r = ([], m, refl, tt, tt, keeping.self m)
    elements-copies m [] (v ∷ vs) r = absurd r
    elements-copies m (a ∷ xs) [] r = absurd r
    elements-copies m (a ∷ xs) (v ∷ vs) r =
        let (a', m1, e1, r1, f1, k1) = copier.copies m a v r.0 in
        let (xs', m2, e2, r2, f2, k2) =
          elements-copies m1 xs vs (elements_stable m m1 xs vs k1 r.1) in
        (
          a' ∷ xs',
          m2,
          ground arith,
          (copier.stable m1 m2 a' v k2 r1, r2),
          (copier.fresh_stable m m1 m2 a' k2 f1, elements_fresh_older m m1 m2 xs' k1 f2),
          keeping.trans m m1 m2 k1 k2,
        )

    pub elements-IsCopier : IsCopier Keeps (elements_view view) (copy_elements copy)
    elements-IsCopier = record {
      copies = elements-copies;
      stable = elements_stable;
      fresh_stable = elements_fresh_stable;
      fresh_older = elements_fresh_older;
    }

    module _ {R : Region M A} (region : IsRegion Keeps R) where
      pointer_stable :
          (m m' : M) (p : Address) (v : Option V)
          → Keeps m m'
          → PointerReads R view m p v
          → PointerReads R view m' p v
      pointer_stable m m' none none k r = tt
      pointer_stable m m' none (some v) k r = absurd r
      pointer_stable m m' (some p) none k r = absurd r
      pointer_stable m m' (some p) (some v) k (a, h, r) = (
        a,
        kept (R.cells m) (R.cells m') p (region.Keeps-cells m m' k) h,
        copier.stable m m' a v k r,
      )

      pointer_fresh_stable :
          (m m1 m2 : M) (p : Address)
          → Keeps m1 m2
          → PointerIsFresh R view m m1 p
          → PointerIsFresh R view m m2 p
      pointer_fresh_stable m m1 m2 none k h = tt
      pointer_fresh_stable m m1 m2 (some p) k (a, h, g, f) = (
        a,
        h,
        kept (R.cells m1) (R.cells m2) p (region.Keeps-cells m1 m2 k) g,
        copier.fresh_stable m m1 m2 a k f,
      )

      pointer_fresh_older :
          (m0 m m1 : M) (p : Address)
          → Keeps m0 m
          → PointerIsFresh R view m m1 p
          → PointerIsFresh R view m0 m1 p
      pointer_fresh_older m0 m m1 none k h = tt
      pointer_fresh_older m0 m m1 (some p) k (a, h, g, f) = (
        a,
        free_of_KeepsCells (R.cells m0) (R.cells m) p (region.Keeps-cells m0 m k) h,
        g,
        copier.fresh_older m0 m m1 a k f,
      )

      pointer-copies :
          (m : M) (p : Address) (v : Option V)
          → PointerReads R view m p v
          → (p' : Address) × (m' : M) × (copy_pointer R copy p m ≡ some (p', m'))
            × PointerReads R view m' p' v
            × PointerIsFresh R view m m' p'
            × Keeps m m'
      unfolding copy_pointer
      pointer-copies m none none r = (none, m, refl, tt, tt, keeping.self m)
      pointer-copies m none (some v) r = absurd r
      pointer-copies m (some p) none r = absurd r
      pointer-copies m (some p) (some v) (a, h, r) =
          let (a', m1, e1, r1, f1, k1) = copier.copies m a v r in
          let m2 = R.push a' m1 in
          let q = length (R.cells m1) in
          let k2 = region.push-Keeps m1 a' in
          let found : get_elem? (R.cells m2) q ≡ some a' =
            rw (region.cells-push m1 a') (get_elem?-push (R.cells m1) a') in
          (
            some q,
            m2,
            ground arith,
            (a', found, copier.stable m1 m2 a' v k2 r1),
            (
              a',
              free_of_KeepsCells (R.cells m) (R.cells m1) q (region.Keeps-cells m m1 k1)
                  (get_elem?-length (R.cells m1)),
              found,
              copier.fresh_stable m m1 m2 a' k2 f1,
            ),
            keeping.trans m m1 m2 k1 k2,
          )

      pub pointer-IsCopier : IsCopier Keeps (pointer_view R view) (copy_pointer R copy)
      pointer-IsCopier = record {
        copies = pointer-copies;
        stable = pointer_stable;
        fresh_stable = pointer_fresh_stable;
        fresh_older = pointer_fresh_older;
      }
