-- ===== src/DeepCopy/Views.antt =====
-- What the objects of the API group read as, once their pointers and slices are followed, and the relation
-- of a memory to a later one.
use kubestellar_workload_sta.Base.{◌≡◌, refl, Option, List, Str}
use kubestellar_workload_sta.DeepCopy.{
  Foreign, Address, Memory, Stage, StagedBindingPolicySpec, StagedBindingPolicy,
  StagedBindingPolicyList, expression_region, selector_region, clause_region, stage_region,
  policy_region,
}
use kubestellar_workload_sta.DeepCopy.Copier.{
  KeepsCells, KeepsCells_self, KeepsCells_trans, KeepsCells_push, View, IsKeeping, IsRegion,
  pointer_view, elements_view, value_view,
}

-- What the code relies on in the copies of the other modules' objects: they return an equal object.
pub record IsFaithful (F : Foreign) : Type 0 where
  pub label_selector : (s : F.LabelSelector) → F.copy_label_selector s ≡ s
  pub downsync_clause : (c : F.DownsyncPolicyClause) → F.copy_downsync_clause c ≡ c
  pub object_meta : (o : F.ObjectMeta) → F.copy_object_meta o ≡ o
  pub list_meta : (l : F.ListMeta) → F.copy_list_meta l ≡ l

module _ (F : Foreign) where
  pub record StageValue : Type 0 where
    pub name : Str
    pub cluster_selectors : Option (List F.LabelSelector)
    pub filter_expression : Option Str
    pub condition : Option Str

  pub record SpecValue : Type 0 where
    pub downsync : Option (List F.DownsyncPolicyClause)
    pub stages : Option (List StageValue)

  pub record PolicyValue : Type 0 where
    pub type_meta : F.TypeMeta
    pub metadata : F.ObjectMeta
    pub spec : SpecValue
    pub active_stage : Str

  pub record ListValue : Type 0 where
    pub type_meta : F.TypeMeta
    pub list_meta : F.ListMeta
    pub items : Option (List PolicyValue)

  abbrev pub expression_view : View (Memory F) Address (Option Str)
  expression_view = pointer_view (expression_region F) value_view

  abbrev pub selectors_view : View (Memory F) Address (Option (List F.LabelSelector))
  selectors_view = pointer_view (selector_region F) (elements_view value_view)

  abbrev pub clauses_view : View (Memory F) Address (Option (List F.DownsyncPolicyClause))
  clauses_view = pointer_view (clause_region F) (elements_view value_view)

  abbrev pub stage_view : View (Memory F) Stage StageValue
  stage_view = record {
    Reads = λ m s v.
        (s.name ≡ v.name)
        × selectors_view.Reads m s.cluster_selectors v.cluster_selectors
        × expression_view.Reads m s.filter_expression v.filter_expression
        × expression_view.Reads m s.condition v.condition;
    IsFresh = λ m m' s.
        selectors_view.IsFresh m m' s.cluster_selectors
        × expression_view.IsFresh m m' s.filter_expression
        × expression_view.IsFresh m m' s.condition;
  }

  abbrev pub stages_view : View (Memory F) Address (Option (List StageValue))
  stages_view = pointer_view (stage_region F) (elements_view stage_view)

  abbrev pub spec_view : View (Memory F) StagedBindingPolicySpec SpecValue
  spec_view = record {
    Reads =
        λ m s v. clauses_view.Reads m s.downsync v.downsync × stages_view.Reads m s.stages v.stages;
    IsFresh = λ m m' s. clauses_view.IsFresh m m' s.downsync × stages_view.IsFresh m m' s.stages;
  }

  abbrev pub policy_view : View (Memory F) (StagedBindingPolicy F) PolicyValue
  policy_view = record {
    Reads = λ m p v.
        (p.type_meta ≡ v.type_meta)
        × (p.metadata ≡ v.metadata)
        × (p.status.active_stage ≡ v.active_stage)
        × spec_view.Reads m p.spec v.spec;
    IsFresh = λ m m' p. spec_view.IsFresh m m' p.spec;
  }

  abbrev pub policies_view : View (Memory F) Address (Option (List PolicyValue))
  policies_view = pointer_view (policy_region F) (elements_view policy_view)

  abbrev pub list_view : View (Memory F) (StagedBindingPolicyList F) ListValue
  list_view = record {
    Reads = λ m l v.
        (l.type_meta ≡ v.type_meta)
        × (l.list_meta ≡ v.list_meta)
        × policies_view.Reads m l.items v.items;
    IsFresh = λ m m' l. policies_view.IsFresh m m' l.items;
  }

  -- Every cell is as it was.
  pub record Keeps (m m' : Memory F) : Type 0 where
    pub expressions : KeepsCells m.expressions m'.expressions
    pub selectors : KeepsCells m.selectors m'.selectors
    pub clauses : KeepsCells m.clauses m'.clauses
    pub stages : KeepsCells m.stages m'.stages
    pub policies : KeepsCells m.policies m'.policies

  pub Keeps-IsKeeping : IsKeeping Keeps
  Keeps-IsKeeping = record {
    self = λ m. record {
      expressions = KeepsCells_self m.expressions;
      selectors = KeepsCells_self m.selectors;
      clauses = KeepsCells_self m.clauses;
      stages = KeepsCells_self m.stages;
      policies = KeepsCells_self m.policies;
    };
    trans = λ a b c k l. record {
      expressions =
          KeepsCells_trans a.expressions b.expressions c.expressions k.expressions l.expressions;
      selectors = KeepsCells_trans a.selectors b.selectors c.selectors k.selectors l.selectors;
      clauses = KeepsCells_trans a.clauses b.clauses c.clauses k.clauses l.clauses;
      stages = KeepsCells_trans a.stages b.stages c.stages k.stages l.stages;
      policies = KeepsCells_trans a.policies b.policies c.policies k.policies l.policies;
    };
  }

  pub expressions-IsRegion : IsRegion Keeps (expression_region F)
  expressions-IsRegion = record {
    cells-push = λ m a. refl;
    push-Keeps = λ m a. record {
      expressions = KeepsCells_push m.expressions a;
      selectors = KeepsCells_self m.selectors;
      clauses = KeepsCells_self m.clauses;
      stages = KeepsCells_self m.stages;
      policies = KeepsCells_self m.policies;
    };
    Keeps-cells = λ m m' k. k.expressions;
  }

  pub selectors-IsRegion : IsRegion Keeps (selector_region F)
  selectors-IsRegion = record {
    cells-push = λ m a. refl;
    push-Keeps = λ m a. record {
      expressions = KeepsCells_self m.expressions;
      selectors = KeepsCells_push m.selectors a;
      clauses = KeepsCells_self m.clauses;
      stages = KeepsCells_self m.stages;
      policies = KeepsCells_self m.policies;
    };
    Keeps-cells = λ m m' k. k.selectors;
  }

  pub clauses-IsRegion : IsRegion Keeps (clause_region F)
  clauses-IsRegion = record {
    cells-push = λ m a. refl;
    push-Keeps = λ m a. record {
      expressions = KeepsCells_self m.expressions;
      selectors = KeepsCells_self m.selectors;
      clauses = KeepsCells_push m.clauses a;
      stages = KeepsCells_self m.stages;
      policies = KeepsCells_self m.policies;
    };
    Keeps-cells = λ m m' k. k.clauses;
  }

  pub stages-IsRegion : IsRegion Keeps (stage_region F)
  stages-IsRegion = record {
    cells-push = λ m a. refl;
    push-Keeps = λ m a. record {
      expressions = KeepsCells_self m.expressions;
      selectors = KeepsCells_self m.selectors;
      clauses = KeepsCells_self m.clauses;
      stages = KeepsCells_push m.stages a;
      policies = KeepsCells_self m.policies;
    };
    Keeps-cells = λ m m' k. k.stages;
  }

  pub policies-IsRegion : IsRegion Keeps (policy_region F)
  policies-IsRegion = record {
    cells-push = λ m a. refl;
    push-Keeps = λ m a. record {
      expressions = KeepsCells_self m.expressions;
      selectors = KeepsCells_self m.selectors;
      clauses = KeepsCells_self m.clauses;
      stages = KeepsCells_self m.stages;
      policies = KeepsCells_push m.policies a;
    };
    Keeps-cells = λ m m' k. k.policies;
  }
