-- ===== src/DeepCopy/Laws.antt =====
-- The deep copies of the API group's objects read as the originals do, share no cell with anything that was
-- there, and leave the originals as they were.
use kubestellar_workload_sta.Base.{◌≡◌, ◌∙◌, refl, some, arith}
use kubestellar_workload_sta.DeepCopy.{
  Foreign, Memory, pure, StagedBindingPolicyList, copy_pointer, copy_elements, copy_expression,
  clause_region, stage_region, selector_region, policy_region, stage_deep_copy_into,
  spec_deep_copy_into, policy_deep_copy_into, list_deep_copy_into, deep_copy, list_deep_copy_object,
  policy_list,
}
use kubestellar_workload_sta.DeepCopy.Copier.{IsKeeping, IsCopier}
use kubestellar_workload_sta.DeepCopy.Parts.{pure-IsCopier, elements-IsCopier, pointer-IsCopier}
use kubestellar_workload_sta.DeepCopy.Views.{
  IsFaithful, ListValue, expression_view, selectors_view, clauses_view, stage_view, stages_view,
  spec_view, policy_view, policies_view, list_view, Keeps, Keeps-IsKeeping, expressions-IsRegion,
  selectors-IsRegion, clauses-IsRegion, stages-IsRegion, policies-IsRegion,
}

module _ {F : Foreign} (faithful : IsFaithful F) where
  keeping : IsKeeping (Keeps F)
  keeping = Keeps-IsKeeping F

  expression-IsCopier : IsCopier (Keeps F) (expression_view F) (copy_expression F)
  expression-IsCopier =
      pointer-IsCopier keeping (pure-IsCopier keeping (λ e. e) (λ e. refl)) (expressions-IsRegion F)

  selectors-IsCopier :
      IsCopier
        (Keeps F)
        (selectors_view F)
        (copy_pointer (selector_region F) (copy_elements (λ s. pure (F.copy_label_selector s))))
  selectors-IsCopier =
      pointer-IsCopier keeping
        (elements-IsCopier keeping
          (pure-IsCopier keeping F.copy_label_selector faithful.label_selector))
        (selectors-IsRegion F)

  clauses-IsCopier :
      IsCopier
        (Keeps F)
        (clauses_view F)
        (copy_pointer (clause_region F) (copy_elements (λ c. pure (F.copy_downsync_clause c))))
  clauses-IsCopier =
      pointer-IsCopier keeping
        (elements-IsCopier keeping
          (pure-IsCopier keeping F.copy_downsync_clause faithful.downsync_clause))
        (clauses-IsRegion F)

  stage-IsCopier : IsCopier (Keeps F) (stage_view F) (stage_deep_copy_into F)
  unfolding stage_deep_copy_into
  stage-IsCopier = record {
    copies = λ m a v r.
        let (s, m1, e1, r1, f1, k1) =
          selectors-IsCopier.copies m a.cluster_selectors v.cluster_selectors r.1 in
        let (f, m2, e2, r2, f2, k2) =
          expression-IsCopier.copies m1 a.filter_expression v.filter_expression
            (expression-IsCopier.stable m m1 a.filter_expression v.filter_expression k1 r.2) in
        let k12 = keeping.trans m m1 m2 k1 k2 in
        let (c, m3, e3, r3, f3, k3) =
          expression-IsCopier.copies m2 a.condition v.condition
            (expression-IsCopier.stable m m2 a.condition v.condition k12 r.3) in
        let k23 = keeping.trans m1 m2 m3 k2 k3 in
        (
          record a { cluster_selectors = s; filter_expression = f; condition = c },
          m3,
          ground arith,
          (
            r.0,
            selectors-IsCopier.stable m1 m3 s v.cluster_selectors k23 r1,
            expression-IsCopier.stable m2 m3 f v.filter_expression k3 r2,
            r3,
          ),
          (
            selectors-IsCopier.fresh_stable m m1 m3 s k23 f1,
            expression-IsCopier.fresh_stable m m2 m3 f k3
                (expression-IsCopier.fresh_older m m1 m2 f k1 f2),
            expression-IsCopier.fresh_older m m2 m3 c k12 f3,
          ),
          keeping.trans m m1 m3 k1 k23,
        );
    stable = λ m m' a v k r. (
      r.0,
      selectors-IsCopier.stable m m' a.cluster_selectors v.cluster_selectors k r.1,
      expression-IsCopier.stable m m' a.filter_expression v.filter_expression k r.2,
      expression-IsCopier.stable m m' a.condition v.condition k r.3,
    );
    fresh_stable = λ m m1 m2 a k h. (
      selectors-IsCopier.fresh_stable m m1 m2 a.cluster_selectors k h.0,
      expression-IsCopier.fresh_stable m m1 m2 a.filter_expression k h.1,
      expression-IsCopier.fresh_stable m m1 m2 a.condition k h.2,
    );
    fresh_older = λ m0 m m1 a k h. (
      selectors-IsCopier.fresh_older m0 m m1 a.cluster_selectors k h.0,
      expression-IsCopier.fresh_older m0 m m1 a.filter_expression k h.1,
      expression-IsCopier.fresh_older m0 m m1 a.condition k h.2,
    );
  }

  stages-IsCopier :
      IsCopier
        (Keeps F)
        (stages_view F)
        (copy_pointer (stage_region F) (copy_elements (stage_deep_copy_into F)))
  stages-IsCopier =
      pointer-IsCopier keeping (elements-IsCopier keeping stage-IsCopier) (stages-IsRegion F)

  spec-IsCopier : IsCopier (Keeps F) (spec_view F) (spec_deep_copy_into F)
  unfolding spec_deep_copy_into
  spec-IsCopier = record {
    copies = λ m a v r.
        let (d, m1, e1, r1, f1, k1) = clauses-IsCopier.copies m a.downsync v.downsync r.0 in
        let (s, m2, e2, r2, f2, k2) =
          stages-IsCopier.copies m1 a.stages v.stages
            (stages-IsCopier.stable m m1 a.stages v.stages k1 r.1) in
        (
          record a { downsync = d; stages = s },
          m2,
          ground arith,
          (clauses-IsCopier.stable m1 m2 d v.downsync k2 r1, r2),
          (
            clauses-IsCopier.fresh_stable m m1 m2 d k2 f1,
            stages-IsCopier.fresh_older m m1 m2 s k1 f2,
          ),
          keeping.trans m m1 m2 k1 k2,
        );
    stable = λ m m' a v k r. (
      clauses-IsCopier.stable m m' a.downsync v.downsync k r.0,
      stages-IsCopier.stable m m' a.stages v.stages k r.1,
    );
    fresh_stable = λ m m1 m2 a k h. (
      clauses-IsCopier.fresh_stable m m1 m2 a.downsync k h.0,
      stages-IsCopier.fresh_stable m m1 m2 a.stages k h.1,
    );
    fresh_older = λ m0 m m1 a k h. (
      clauses-IsCopier.fresh_older m0 m m1 a.downsync k h.0,
      stages-IsCopier.fresh_older m0 m m1 a.stages k h.1,
    );
  }

  policy-IsCopier : IsCopier (Keeps F) (policy_view F) (policy_deep_copy_into F)
  unfolding policy_deep_copy_into
  policy-IsCopier = record {
    copies = λ m a v r.
        let (s, m1, e1, r1, f1, k1) = spec-IsCopier.copies m a.spec v.spec r.3 in
        (
          record a { metadata = F.copy_object_meta a.metadata; spec = s },
          m1,
          ground arith,
          (r.0, faithful.object_meta a.metadata ∙ r.1, r.2, r1),
          f1,
          k1,
        );
    stable = λ m m' a v k r. (r.0, r.1, r.2, spec-IsCopier.stable m m' a.spec v.spec k r.3);
    fresh_stable = λ m m1 m2 a k h. spec-IsCopier.fresh_stable m m1 m2 a.spec k h;
    fresh_older = λ m0 m m1 a k h. spec-IsCopier.fresh_older m0 m m1 a.spec k h;
  }

  policies-IsCopier :
      IsCopier
        (Keeps F)
        (policies_view F)
        (copy_pointer (policy_region F) (copy_elements (policy_deep_copy_into F)))
  policies-IsCopier =
      pointer-IsCopier keeping (elements-IsCopier keeping policy-IsCopier) (policies-IsRegion F)

  -- `DeepCopyObject` of a list of policies that reads as a value succeeds, whatever its pointers and slices are: the copy reads
  -- as the same value, its arrays and expressions are in cells that were free, and every cell that was there
  -- is as it was, so that the original still reads as the value. The copies of other modules' objects are
  -- taken to return an equal object.
  pub list_deep_copy_object_lem :
      (m : Memory F) (list : StagedBindingPolicyList F) (v : ListValue F)
      → (list_view F).Reads m list v
      → (list' : StagedBindingPolicyList F) × (m' : Memory F) × (list_deep_copy_object F
            (some list)
            m
          ≡ some (some (policy_list list'), m'))
        × (list_view F).Reads m' list' v
        × (list_view F).IsFresh m m' list'
        × Keeps F m m'
        × (list_view F).Reads m' list v
  unfolding list_deep_copy_object deep_copy list_deep_copy_into
  list_deep_copy_object_lem m a v r =
      let (items, m1, e1, r1, f1, k1) = policies-IsCopier.copies m a.items v.items r.2 in
      (
        record a { list_meta = F.copy_list_meta a.list_meta; items = items },
        m1,
        ground arith,
        (r.0, faithful.list_meta a.list_meta ∙ r.1, r1),
        f1,
        k1,
        (r.0, r.1, policies-IsCopier.stable m m1 a.items v.items k1 r.2),
      )
