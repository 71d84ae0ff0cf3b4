-- ===== src/Cel.antt =====
-- pkg/staged-binding-policy/cel-evaluator.go, and `testExpression` of resolver.go. The CEL environment
-- is `Cluster`'s `parse`, `check`, `program` and `eval`.
pub mod Laws
use Prim.Native.String.{String}
use mathlib.Core.Logic.{dite}
use kubestellar_workload_sta.Base.{Bool, true, false, Option, none, some, Str, codes, Eq, str_eq}
use kubestellar_workload_sta.Base.Dict.{Dict}
use kubestellar_workload_sta.Api.{Kinds, Expression}
use kubestellar_workload_sta.Cluster.{
  Cluster, Result, ok, err, Failure, external, wrapped, Argument,
}

infixl 5 ◌>>=◌
abbrev ◌>>=◌ : {E A B : Type 0} → Result E A → (A → Result E B) → Result E B
ok a >>= f = f a
err e >>= f = err e

-- `err != nil`
abbrev wrap_err : {E A : Type 0} → String → Result E A → Result (Failure E) A
wrap_err message (ok a) = ok a
wrap_err message (err e) = err (wrapped message (external e))

abbrev failure? : {E A : Type 0} → Result E A → Option E
failure? (ok a) = none
failure? (err e) = some e

module _ {K : Kinds} (C : Cluster K) where
  -- `issues != nil && issues.Err() != nil`
  abbrev pub issue_error : Option C.Issues → Option C.Error
  issue_error none = none
  issue_error (some issues) = C.issues_err issues

  abbrev accepted : String → C.Ast × Option C.Issues → Result (Failure C.Error) C.Ast
  accepted message (ast, issues) = elim (issue_error issues) [
    | none ↦ ok ast
    | some e ↦ err (wrapped message (external e))
  ]

  abbrev checked : Expression → Result (Failure C.Error) C.Ast
  checked expression = do
    ast ← accepted "failed to parse expression" (C.parse expression)
    accepted "failed to check expression" (C.check ast)

  unfoldable pub check_expression : Option Expression → Option (Failure C.Error)
  check_expression none = none
  check_expression (some expression) = failure? (checked expression)

  unfoldable pub evaluate :
      Expression → Dict Str (Argument C.Unstructured) → Result (Failure C.Error) C.Val
  evaluate expression arguments = do
    ast ← accepted "failed to parse expression" (C.parse expression)
    typed ← accepted "failed to check expression" (C.check ast)
    prog ← wrap_err "failed to create program" (C.program typed)
    wrap_err "failed to evaluate expression" (C.eval prog arguments)

  abbrev pub is_true : C.Val → Bool
  is_true v = dite (str_eq.dec (C.type_name v) (codes "bool")) (λ h. C.bool_value v h) (λ _. false)

  unfoldable pub test_expression : Expression → Dict Str (Argument C.Unstructured) → Bool
  unfolding evaluate
  test_expression expression arguments = elim (evaluate expression arguments) [
    | err _ ↦ false
    | ok v ↦ is_true v
  ]
