-- ===== src/Cel/Laws.antt =====
-- How the two entry points of the evaluator agree.
use mathlib.Core.Path.{subst}
use mathlib.Core.Logic.{dite}
use kubestellar_workload_sta.Base.{
  false, ◌≡◌, ◌↔◌, inl, inr, true, none, some, Str, codes, arith, Option-cases, str_eq,
}
use kubestellar_workload_sta.Base.Dict.{Dict}
use kubestellar_workload_sta.Api.{Kinds, Expression}
use kubestellar_workload_sta.Cluster.{Cluster, Failure, Argument, ok, err, Result-cases}
use kubestellar_workload_sta.Cel.{check_expression, evaluate, test_expression, issue_error}

module _ {K : Kinds} (C : Cluster K) where
  -- What `CheckExpression` refuses, `Evaluate` refuses with the same error, whatever the arguments.
  evaluate-check_expression :
      (expression : Expression) (arguments : Dict Str (Argument C.Unstructured))
      (f : Failure C.Error)
      → check_expression C (some expression) ≡ some f
      → evaluate C expression arguments ≡ err f
  unfolding check_expression evaluate
  evaluate-check_expression expression arguments f h = ground arith

  -- An expression that tests true has passed `CheckExpression`.
  check_expression-test_expression :
      (expression : Expression) (arguments : Dict Str (Argument C.Unstructured))
      → test_expression C expression arguments ≡ true
      → check_expression C (some expression) ≡ none
  unfolding check_expression test_expression
  check_expression-test_expression expression arguments h = ground arith

Str-IsSet : IsSet Str
Str-IsSet = hlevel

module _ {K : Kinds} (C : Cluster K) where
  -- The expression parses, checks, makes a program, and evaluates to a value.
  pub record Evaluates (expression : Expression) (arguments : Dict Str (Argument C.Unstructured))
      (v : C.Val) : Type 0 where
    pub parses : issue_error C (C.parse expression).1 ≡ none
    pub checks : issue_error C (C.check (C.parse expression).0).1 ≡ none
    pub prog : C.Program
    pub programs : C.program (C.check (C.parse expression).0).0 ≡ ok prog
    pub evaluates : C.eval prog arguments ≡ ok v

  evaluate-eq_ok :
      (expression : Expression) (arguments : Dict Str (Argument C.Unstructured)) (v : C.Val)
      → evaluate C expression arguments ≡ ok v
      → Evaluates expression arguments v
  unfolding evaluate
  evaluate-eq_ok expression arguments v h =
      elim (Option-cases (issue_error C (C.parse expression).1)) [
        | inr (e, p) ↦ absurd (ground arith)
        | inl p ↦ elim (Option-cases (issue_error C (C.check (C.parse expression).0).1)) [
          | inr (e, c) ↦ absurd (ground arith)
          | inl c ↦ elim (Result-cases (C.program (C.check (C.parse expression).0).0)) [
            | inl (e, q) ↦ absurd (ground arith)
            | inr (prog, q) ↦ record {
              parses = p;
              checks = c;
              prog = prog;
              programs = q;
              evaluates = ground arith;
            }
          ]
        ]
      ]

  evaluate_of_Evaluates :
      (expression : Expression) (arguments : Dict Str (Argument C.Unstructured)) (v : C.Val)
      → Evaluates expression arguments v
      → evaluate C expression arguments ≡ ok v
  unfolding evaluate
  evaluate_of_Evaluates expression arguments v e =
      let p = e.parses in
      let c = e.checks in let q = e.programs in let r = e.evaluates in ground arith

  is_true_cases :
      (v : C.Val) (d : Dec (C.type_name v ≡ codes "bool"))
      → dite d (λ h. C.bool_value v h) (λ _. false) ≡ true
      → (b : C.type_name v ≡ codes "bool") × (C.bool_value v b ≡ true)
  is_true_cases v (yes b) h = (b, h)
  is_true_cases v (no n) h = absurd (cc)

  is_true_of_bool :
      (v : C.Val) (d : Dec (C.type_name v ≡ codes "bool")) (b : C.type_name v ≡ codes "bool")
      → C.bool_value v b ≡ true
      → dite d (λ h. C.bool_value v h) (λ _. false) ≡ true
  is_true_of_bool v (yes b') b h = subst (λ x. C.bool_value v x ≡ true) (Str-IsSet _ _ b b') h
  is_true_of_bool v (no n) b h = absurd (n b)

  -- `testExpression` holds exactly where the expression parses, checks, makes a program and evaluates without an
  -- error, to a Boolean that is true; any error and any other value count as false.
  pub test_expression-Evaluates :
      (expression : Expression) (arguments : Dict Str (Argument C.Unstructured))
      → (test_expression C expression arguments ≡ true) ↔ (
          (v : C.Val) × (b : C.type_name v ≡ codes "bool") × (C.bool_value v b ≡ true)
          × Evaluates expression arguments v)
  unfolding test_expression
  test_expression-Evaluates expression arguments = (
    λ h. elim (Result-cases (evaluate C expression arguments)) [
      | inl (e, q) ↦ absurd (ground arith)
      | inr (v, q) ↦
          let (b, t) = is_true_cases v (str_eq.dec (C.type_name v) (codes "bool")) (ground arith) in
          (v, b, t, evaluate-eq_ok expression arguments v q)
    ],
    λ (v, b, t, e).
        let q = evaluate_of_Evaluates expression arguments v e in
        let holds = is_true_of_bool v (str_eq.dec (C.type_name v) (codes "bool")) b t in
        ground arith,
  )
