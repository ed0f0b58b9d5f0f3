-- ===== src/Runtime/Evaluate/Keeps.antt =====
-- Every expression, placeholder and argument is steady, by recursion on it.
use doomtp_bot.Prelude.{true, false, not, ◌||◌, Option, [], ◌∷◌, ◌++◌, if◌then◌else◌}
use doomtp_bot.Runtime.Values.{Value, missing, boolean, text, Python, is_missing, render}
use doomtp_bot.Runtime.Result.{Result}
use doomtp_bot.Runtime.Ops.{Floats, truthy, apply_binary, apply_not, apply_minus}
use doomtp_bot.Runtime.Ops.Compare.{compare_values}
use doomtp_bot.Runtime.Ops.Collections.{index}
use doomtp_bot.Runtime.Ast.{
  Expr, lit, ref, var_ref, index_of, access, minus, not_, binary, if_missing, both, either, compare,
  subst, bare, with_fallback, Exprs, no_exprs, next_expr, Links, no_links, link, Parts, no_parts,
  text_part, placeholder, Args, no_args, next_arg, Invocation,
}
use doomtp_bot.Runtime.Execution.{Action, ScopeArgs}
use doomtp_bot.Runtime.Execution.Steady.{
  IsSteady, pure-IsSteady, lift-IsSteady, if-IsSteady, counted-IsSteady, then-IsSteady,
}
use doomtp_bot.Runtime.Evaluate.{Surroundings}
use doomtp_bot.Runtime.Evaluate.Expressions.{
  evaluate, walk_path, compare_rest, expand, argument, arguments,
}
use doomtp_bot.Runtime.Evaluate.Steady.{
  ref_value-Kept, variable-Kept, required-IsSteady, operand_of-IsSteady, accessed-IsSteady,
}

module _ {ℓ} {W : Type ℓ} (py : Python) (fl : Floats) (around : Surroundings W) (args : ScopeArgs)
    (sub : Invocation → Option Result → Action W Value)
    (tmp : Value → Option Result → Action W Value)
    (sub_steady : (i : Invocation) (p : Option Result) → IsSteady (sub i p))
    (tmp_steady : (v : Value) (p : Option Result) → IsSteady (tmp v p)) where
  mutual
    unfolding evaluate walk_path compare_rest expand

    pub evaluate-IsSteady :
        (e : Expr) (prev : Option Result) → IsSteady (evaluate py fl around args sub tmp e prev)
    evaluate-IsSteady (lit v) prev = counted-IsSteady (pure-IsSteady v)
    evaluate-IsSteady (ref root path) prev = counted-IsSteady (record {
      kept = ref_value-Kept py fl around args sub tmp sub_steady tmp_steady root path prev;
    })
    evaluate-IsSteady (var_ref namespace name path) prev = counted-IsSteady (
        then-IsSteady
          (record {
            kept = variable-Kept py fl around args sub tmp sub_steady tmp_steady namespace name;
          })
          (λ v. walk_path-IsSteady v path prev))
    evaluate-IsSteady (index_of target k) prev = counted-IsSteady (
        then-IsSteady
          (operand_of-IsSteady py fl around args sub tmp sub_steady tmp_steady target prev
            (evaluate-IsSteady target prev))
          (λ base. then-IsSteady (evaluate-IsSteady k prev) (λ v.
            then-IsSteady (required-IsSteady py fl around args sub tmp sub_steady tmp_steady k v)
              (λ at_key. lift-IsSteady (index py fl base at_key)))))
    evaluate-IsSteady (access target name choices) prev = counted-IsSteady (
        then-IsSteady
          (operand_of-IsSteady py fl around args sub tmp sub_steady tmp_steady target prev
            (evaluate-IsSteady target prev))
          (λ v.
            accessed-IsSteady py fl around args sub tmp sub_steady tmp_steady name choices prev v))
    evaluate-IsSteady (minus e) prev = counted-IsSteady (
        then-IsSteady (evaluate-IsSteady e prev) (λ v.
          if-IsSteady (is_missing v) (pure-IsSteady missing) (lift-IsSteady (apply_minus py fl v))))
    evaluate-IsSteady (not_ e) prev = counted-IsSteady (
        then-IsSteady (evaluate-IsSteady e prev)
          (λ v. pure-IsSteady (if is_missing v then missing else apply_not py fl v)))
    evaluate-IsSteady (binary op left right) prev = counted-IsSteady (
        then-IsSteady (evaluate-IsSteady left prev) (λ a.
          then-IsSteady (evaluate-IsSteady right prev) (λ b.
            if-IsSteady (is_missing a || is_missing b) (pure-IsSteady missing)
              (lift-IsSteady (apply_binary py fl op a b)))))
    evaluate-IsSteady (if_missing left right) prev = counted-IsSteady (
        then-IsSteady (evaluate-IsSteady left prev)
          (λ v. if-IsSteady (is_missing v) (evaluate-IsSteady right prev) (pure-IsSteady v)))
    evaluate-IsSteady (both left right) prev = counted-IsSteady (
        then-IsSteady (evaluate-IsSteady left prev) (λ v.
          if-IsSteady (is_missing v || not (truthy py fl v)) (pure-IsSteady v)
            (evaluate-IsSteady right prev)))
    evaluate-IsSteady (either left right) prev = counted-IsSteady (
        then-IsSteady (evaluate-IsSteady left prev) (λ v.
          if-IsSteady (is_missing v || truthy py fl v) (pure-IsSteady v)
            (evaluate-IsSteady right prev)))
    evaluate-IsSteady (compare first rest) prev = counted-IsSteady (
        then-IsSteady (evaluate-IsSteady first prev) (λ a.
          if-IsSteady (is_missing a) (pure-IsSteady missing) (compare_rest-IsSteady a rest prev)))
    evaluate-IsSteady (subst inv) prev = counted-IsSteady (sub_steady inv prev)
    evaluate-IsSteady (bare e) prev = counted-IsSteady (evaluate-IsSteady e prev)
    evaluate-IsSteady (with_fallback e fallback) prev = counted-IsSteady (
        then-IsSteady (evaluate-IsSteady e prev) (λ v.
          if-IsSteady (is_missing v)
            (then-IsSteady (expand-IsSteady fallback prev) (λ t. pure-IsSteady (text t)))
            (pure-IsSteady v)))

    pub walk_path-IsSteady :
        (v : Value) (path : Exprs) (prev : Option Result)
        → IsSteady (walk_path py fl around args sub tmp v path prev)
    walk_path-IsSteady v no_exprs prev = pure-IsSteady v
    walk_path-IsSteady v (next_expr step rest) prev =
        then-IsSteady (evaluate-IsSteady step prev) (λ k.
          then-IsSteady (required-IsSteady py fl around args sub tmp sub_steady tmp_steady step k)
            (λ at_key.
              then-IsSteady (lift-IsSteady (index py fl v at_key))
                (λ w. walk_path-IsSteady w rest prev)))

    pub compare_rest-IsSteady :
        (a : Value) (rest : Links) (prev : Option Result)
        → IsSteady (compare_rest py fl around args sub tmp a rest prev)
    compare_rest-IsSteady a no_links prev = pure-IsSteady (boolean true)
    compare_rest-IsSteady a (link op operand rest) prev =
        then-IsSteady (evaluate-IsSteady operand prev) (λ b.
          if-IsSteady (is_missing b) (pure-IsSteady missing) (
            then-IsSteady (lift-IsSteady (compare_values py fl op a b)) (λ h.
              if-IsSteady h (compare_rest-IsSteady b rest prev) (pure-IsSteady (boolean false)))))

    pub expand-IsSteady :
        (parts : Parts) (prev : Option Result)
        → IsSteady (expand py fl around args sub tmp parts prev)
    expand-IsSteady no_parts prev = pure-IsSteady []
    expand-IsSteady (text_part t rest) prev =
        then-IsSteady (expand-IsSteady rest prev) (λ more. pure-IsSteady (t ++ more))
    expand-IsSteady (placeholder e rest) prev = then-IsSteady (evaluate-IsSteady e prev) (λ v.
        then-IsSteady (required-IsSteady py fl around args sub tmp sub_steady tmp_steady e v) (λ w.
          then-IsSteady (expand-IsSteady rest prev) (λ more. pure-IsSteady (render py w ++ more))))

  pub argument-IsSteady :
      (parts : Parts) (prev : Option Result)
      → IsSteady (argument py fl around args sub tmp parts prev)
  unfolding argument
  argument-IsSteady no_parts prev =
      then-IsSteady (expand-IsSteady no_parts prev) (λ t. pure-IsSteady (text t))
  argument-IsSteady (text_part u rest) prev =
      then-IsSteady (expand-IsSteady (text_part u rest) prev) (λ t. pure-IsSteady (text t))
  argument-IsSteady (placeholder e no_parts) prev =
      then-IsSteady (evaluate-IsSteady e prev)
        (λ v. required-IsSteady py fl around args sub tmp sub_steady tmp_steady e v)
  argument-IsSteady (placeholder e (text_part u rest)) prev =
      then-IsSteady (expand-IsSteady (placeholder e (text_part u rest)) prev)
        (λ t. pure-IsSteady (text t))
  argument-IsSteady (placeholder e (placeholder f rest)) prev =
      then-IsSteady (expand-IsSteady (placeholder e (placeholder f rest)) prev)
        (λ t. pure-IsSteady (text t))

  pub arguments-IsSteady :
      (given : Args) (prev : Option Result)
      → IsSteady (arguments py fl around args sub tmp given prev)
  unfolding arguments
  arguments-IsSteady no_args prev = pure-IsSteady []
  arguments-IsSteady (next_arg parts rest) prev =
      then-IsSteady (argument-IsSteady parts prev)
        (λ v. then-IsSteady (arguments-IsSteady rest prev) (λ more. pure-IsSteady (v ∷ more)))
