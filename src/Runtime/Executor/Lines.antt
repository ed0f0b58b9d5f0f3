-- ===== src/Runtime/Executor/Lines.antt =====
-- What every line promises, whatever it runs.
use doomtp_bot.Prelude.{ℕ, ◌+◌, ◌≤◌, ◌≡◌, refl, true, Option, arith, ltb}
use doomtp_bot.Prelude.Int.{int_comparable}
use doomtp_bot.Runtime.Values.{Value, Python}
use doomtp_bot.Runtime.Result.{Result, raised, expr_error, e_expr_budget}
use doomtp_bot.Runtime.Ops.{Floats}
use doomtp_bot.Runtime.Ast.{
  Node, Expr, lit, ref, var_ref, index_of, access, minus, not_, binary, if_missing, both, either,
  compare, subst, bare, with_fallback, Invocation,
}
use doomtp_bot.Runtime.Execution.{Run, Action, ScopeArgs, counted, max_expr_ops}
use doomtp_bot.Runtime.Execution.Steady.{Kept}
use doomtp_bot.Runtime.Evaluate.{Surroundings}
use doomtp_bot.Runtime.Evaluate.Expressions.{evaluate}
use doomtp_bot.Runtime.Executor.{Scope, Machine}
use doomtp_bot.Runtime.Executor.Invoke.{run_line}
use doomtp_bot.Runtime.Executor.Keeps.{run_node-IsSteady}

module _ {ℓ} {W : Type ℓ} where
  counted_spent :
      (a : Action W Value) (run : Run W)
      → max_expr_ops ≤ run.expr_ops
      → (counted a run).1 ≡ raised (expr_error e_expr_budget)
  unfolding counted
  counted_spent a run h =
      let spent : ltb max_expr_ops (run.expr_ops + 1) ≡ true = ground (arith, h) in rw spent refl

  module _ (py : Python) (fl : Floats) (around : Surroundings W) (args : ScopeArgs)
      (sub : Invocation → Option Result → Action W Value)
      (tmp : Value → Option Result → Action W Value) where
    -- Every kind of expression is charged first.
    pub evaluate_spent :
        (e : Expr) (prev : Option Result) (run : Run W)
        → max_expr_ops ≤ run.expr_ops
        → (evaluate py fl around args sub tmp e prev run).1 ≡ raised (expr_error e_expr_budget)
    unfolding evaluate
    evaluate_spent (lit v) prev run h = counted_spent _ run h
    evaluate_spent (ref root path) prev run h = counted_spent _ run h
    evaluate_spent (var_ref namespace name path) prev run h = counted_spent _ run h
    evaluate_spent (index_of target k) prev run h = counted_spent _ run h
    evaluate_spent (access target name choices) prev run h = counted_spent _ run h
    evaluate_spent (minus e) prev run h = counted_spent _ run h
    evaluate_spent (not_ e) prev run h = counted_spent _ run h
    evaluate_spent (binary op left right) prev run h = counted_spent _ run h
    evaluate_spent (if_missing left right) prev run h = counted_spent _ run h
    evaluate_spent (both left right) prev run h = counted_spent _ run h
    evaluate_spent (either left right) prev run h = counted_spent _ run h
    evaluate_spent (compare first rest) prev run h = counted_spent _ run h
    evaluate_spent (subst inv) prev run h = counted_spent _ run h
    evaluate_spent (bare e) prev run h = counted_spent _ run h
    evaluate_spent (with_fallback e fallback) prev run h = counted_spent _ run h

module _ {ℓ} {W : Type ℓ} (py : Python) (fl : Floats) (json_size : Value → ℕ) (m : Machine W) where
  -- Whatever a line runs and however it ends, the depth of `{!…}` and the ids of the run are what they
  -- were before it, and no step of the budget is given back.
  pub run_line-Kept :
      (fuel : ℕ) (scope : Scope) (node : Node) (stdin : Option Result) (run : Run W)
      → Kept run (run_line py fl json_size m fuel scope node stdin run).0
  unfolding run_line
  run_line-Kept fuel scope node stdin run =
      (run_node-IsSteady py fl json_size m fuel scope node stdin stdin).kept run

  -- Once a run has taken 1000 steps of expressions, where every node of an expression is a step (a literal,
  -- a reference and a placeholder too, not only an operator), every further expression of whatever kind
  -- raises E_EXPR_BUDGET, also after any further line.
  pub run_line-budget :
      (fuel : ℕ) (scope : Scope) (node : Node) (stdin : Option Result) (run : Run W)
      (sub : Invocation → Option Result → Action W Value)
      (tmp : Value → Option Result → Action W Value) (e : Expr) (prev : Option Result)
      → max_expr_ops ≤ run.expr_ops
      → (evaluate py fl m.around scope.args sub tmp e prev
          (run_line py fl json_size m fuel scope node stdin run).0).1
        ≡ raised (expr_error e_expr_budget)
  run_line-budget fuel scope node stdin run sub tmp e prev h =
      let kept = run_line-Kept fuel scope node stdin run in
      evaluate_spent py fl m.around scope.args sub tmp e prev _ (omega (arith, h, kept.2))
