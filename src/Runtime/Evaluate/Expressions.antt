-- ===== src/Runtime/Evaluate/Expressions.antt =====
-- runtime/executor.py: evaluate, expand and argument, by recursion on what is evaluated.
use doomtp_bot.Prelude.{true, false, not, ◌||◌, Option, List, [], ◌∷◌, ◌++◌, Text, if◌then◌else◌}
use doomtp_bot.Runtime.Values.{Value, missing, boolean, text, Python, is_missing, render}
use doomtp_bot.Runtime.Result.{Result}
use doomtp_bot.Runtime.Ops.{Floats, truthy, apply_binary, apply_not, apply_minus}
use doomtp_bot.Runtime.Ops.Compare.{compare_values}
use doomtp_bot.Runtime.Ops.Collections.{index}
use doomtp_bot.Runtime.Ast.{
  Expr, lit, ref, var_ref, index_of, access, minus, not_, binary, if_missing, both, either, compare,
  subst, bare, with_fallback, Exprs, no_exprs, next_expr, Links, no_links, link, Parts, no_parts,
  text_part, placeholder, Args, no_args, next_arg, Invocation,
}
use doomtp_bot.Runtime.Execution.{Action, ScopeArgs, ◌>>>◌, pure, lift, counted}
use doomtp_bot.Runtime.Evaluate.{Surroundings, ref_value, variable, required, operand_of, accessed}

module _ {ℓ} {W : Type ℓ} (py : Python) (fl : Floats) (around : Surroundings W) (args : ScopeArgs)
    (substitute : Invocation → Option Result → Action W Value)
    (template : Value → Option Result → Action W Value) where
  unfoldable mutual
    pub evaluate : Expr → Option Result → Action W Value
    evaluate (lit v) prev = counted (pure v)
    evaluate (ref root path) prev =
        counted (ref_value py fl around args substitute template root path prev)
    evaluate (var_ref namespace name path) prev = counted (
        variable py fl around args substitute template namespace name >>> λ v.
        walk_path v path prev)
    evaluate (index_of target k) prev = counted (
        operand_of py fl around args substitute template target prev (evaluate target prev)
        >>> λ base. evaluate k prev >>> λ v.
            required py fl around args substitute template k v >>> λ at_key.
            lift (index py fl base at_key))
    evaluate (access target name choices) prev = counted (
        operand_of py fl around args substitute template target prev (evaluate target prev) >>> λ v.
        accessed py fl around args substitute template name choices prev v)
    evaluate (minus e) prev =
        counted (
          evaluate e prev >>> λ v.
          if is_missing v then pure missing else lift (apply_minus py fl v))
    evaluate (not_ e) prev =
        counted
          (evaluate e prev >>> λ v. pure (if is_missing v then missing else apply_not py fl v))
    evaluate (binary op left right) prev = counted (
        evaluate left prev >>> λ a. evaluate right prev >>> λ b.
        if is_missing a || is_missing b then pure missing else lift (apply_binary py fl op a b))
    evaluate (if_missing left right) prev =
        counted (evaluate left prev >>> λ v. if is_missing v then evaluate right prev else pure v)
    evaluate (both left right) prev = counted (
        evaluate left prev >>> λ v.
        if is_missing v || not (truthy py fl v) then pure v else evaluate right prev)
    evaluate (either left right) prev = counted (
        evaluate left prev >>> λ v.
        if is_missing v || truthy py fl v then pure v else evaluate right prev)
    evaluate (compare first rest) prev = counted (
        evaluate first prev >>> λ a.
        if is_missing a then pure missing else compare_rest a rest prev)
    evaluate (subst inv) prev = counted (substitute inv prev)
    evaluate (bare e) prev = counted (evaluate e prev)
    evaluate (with_fallback e fallback) prev = counted (
        evaluate e prev >>> λ v.
        if is_missing v then (expand fallback prev >>> λ t. pure (text t)) else pure v)

    -- The path of a variable: each step's key, and the value under it.
    pub walk_path : Value → Exprs → Option Result → Action W Value
    walk_path v no_exprs prev = pure v
    walk_path v (next_expr step rest) prev = evaluate step prev >>> λ k.
        required py fl around args substitute template step k >>> λ at_key.
        lift (index py fl v at_key) >>> λ w. walk_path w rest prev

    -- The loop of a comparison over its links.
    pub compare_rest : Value → Links → Option Result → Action W Value
    compare_rest a no_links prev = pure (boolean true)
    compare_rest a (link op operand rest) prev = evaluate operand prev >>> λ b.
        if is_missing b
        then pure missing
        else lift (compare_values py fl op a b) >>> λ holds.
            if holds then compare_rest b rest prev else pure (boolean false)

    -- expand, with placeholder_value at each placeholder
    pub expand : Parts → Option Result → Action W Text
    expand no_parts prev = pure []
    expand (text_part t rest) prev = expand rest prev >>> λ more. pure (t ++ more)
    expand (placeholder e rest) prev = evaluate e prev >>> λ v.
        required py fl around args substitute template e v >>> λ w.
        expand rest prev >>> λ more. pure (render py w ++ more)

  -- argument: a lone placeholder keeps its value's type, anything else is text
  unfoldable pub argument : Parts → Option Result → Action W Value
  argument (placeholder e no_parts) prev =
      evaluate e prev >>> λ v. required py fl around args substitute template e v
  argument parts prev = expand parts prev >>> λ t. pure (text t)

  -- The arguments of an invocation, in order.
  unfoldable pub arguments : Args → Option Result → Action W (List Value)
  arguments no_args prev = pure []
  arguments (next_arg parts rest) prev =
      argument parts prev >>> λ v. arguments rest prev >>> λ more. pure (v ∷ more)
