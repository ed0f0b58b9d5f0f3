-- ===== src/Runtime/Node/Steady.antt =====
-- A line's tree is steady where its invocations and its arguments are.
use doomtp_bot.Prelude.{
  ℕ, Bool, not, Option, none, some, List, [], ◌∷◌, Text, if◌then◌else◌, inl, inr, Option-cases,
}
use doomtp_bot.Runtime.Values.{Value, null, Python}
use doomtp_bot.Runtime.Result.{
  Result, success, succeeded, Failure, Outcome, raised, returned, Outcome-cases,
}
use doomtp_bot.Runtime.Ops.{Floats, holds}
use doomtp_bot.Runtime.Variables.{Step, OpKind, set_to, append_of}
use doomtp_bot.Runtime.Variables.Names.{key_for}
use doomtp_bot.Runtime.Ast.{
  Node, command, pipe, and_, or_, group, store, if_then, if_else, Expr, Exprs, no_exprs, next_expr,
  Parts, Target, Invocation,
}
use doomtp_bot.Runtime.Execution.{Run, Action}
use doomtp_bot.Runtime.Execution.Steady.{
  Kept, Kept-refl, Kept-trans, IsSteady, pure-IsSteady, if-IsSteady, then-IsSteady,
}
use doomtp_bot.Runtime.Evaluate.{Surroundings}
use doomtp_bot.Runtime.Node.{
  Wording, expression_failure, variable_failure, first_of, settle, try_else, store_key,
  stored_value, keyed, path_of, write_result, store_result, eval,
}

module _ {ℓ κ} {W : Type ℓ} {A : Type κ} where
  settle-Kept :
      (run : Run W) (except : Failure → Option Result) (f : A → Action W Result)
      (p : Run W × Outcome A)
      → Kept run p.0
      → ((a : A) → IsSteady (f a))
      → Kept run (settle except f p).0
  settle-Kept run except f (ended, raised e) k s = elim (Option-cases (except e)) [
    | inl other ↦ rw (other, settle) k
    | inr (r, caught) ↦ rw (caught, settle) k
  ]
  settle-Kept run except f (ended, returned a) k s =
      Kept-trans run ended (f a ended).0 k ((s a).kept ended)

  pub try_else-IsSteady :
      {m : Action W A} (except : Failure → Option Result) {f : A → Action W Result}
      → IsSteady m
      → ((a : A) → IsSteady (f a))
      → IsSteady (try_else m except f)
  try_else-IsSteady {m} except {f} p s = record {
    kept = λ run. settle-Kept run except f (m run) (p.kept run) s;
  }

module _ {ℓ} {W : Type ℓ} (py : Python) (fl : Floats) (json_size : Value → ℕ) (words : Wording)
    (around : Surroundings W) (argument : Parts → Option Result → Action W Value)
    (key_of : Expr → Option Result → Action W Value)
    (invoke : Invocation → Option Result → Option Result → Action W Result)
    (argument_steady : (t : Parts) (p : Option Result) → IsSteady (argument t p))
    (key_steady : (e : Expr) (p : Option Result) → IsSteady (key_of e p))
    (invoke_steady : (i : Invocation) (p s : Option Result) → IsSteady (invoke i p s)) where
  path_of-IsSteady :
      (path : Exprs) (prev : Option Result)
      → IsSteady (path_of py fl json_size words around argument key_of path prev)
  path_of-IsSteady no_exprs prev = pure-IsSteady []
  path_of-IsSteady (next_expr e rest) prev = then-IsSteady (key_steady e prev) (λ v.
      then-IsSteady (path_of-IsSteady rest prev) (λ more. pure-IsSteady (store_key py v ∷ more)))

  keyed-Kept :
      (namespace name : Text) (kind : Value → OpKind) (v : Value) (path : List Step) (run : Run W)
      → Kept run
          (keyed py fl json_size words around argument key_of namespace name kind v path run).0
  keyed-Kept namespace name kind v path run =
      elim (Outcome-cases (key_for run.ids namespace name)) [
        | inl (e, failed) ↦ rw (failed, keyed) (Kept-refl run)
        | inr (k, made) ↦ rw (made, keyed) (Kept-refl run)
      ]

  write_result-IsSteady :
      (target : Target) (append : Bool) (r : Result) (v : Value)
      → IsSteady (write_result py fl json_size words around argument key_of target append r v)
  unfolding write_result
  write_result-IsSteady target append r v =
      try_else-IsSteady
        (λ e. first_of words (expression_failure words e) (variable_failure words e))
        (then-IsSteady (path_of-IsSteady target.path (some r)) (λ path. record {
          kept =
              keyed-Kept target.namespace target.name (if append then append_of else set_to) v path;
        }))
        (λ w. pure-IsSteady r)

  store_result-IsSteady :
      (target : Target) (append : Bool) (r : Result)
      → IsSteady (store_result py fl json_size words around argument key_of target append r)
  unfolding store_result
  store_result-IsSteady target append r =
      elim (Option-cases (stored_value py fl json_size words around argument key_of r)) [
        | inl nothing ↦ rw (nothing, store_result) (pure-IsSteady r)
        | inr (v, there) ↦ rw (there, store_result) (write_result-IsSteady target append r v)
      ]

  pub eval-IsSteady :
      (node : Node) (prev stdin : Option Result)
      → IsSteady (eval py fl json_size words around argument key_of invoke node prev stdin)
  unfolding eval
  eval-IsSteady (command inv) prev stdin = invoke_steady inv prev stdin
  eval-IsSteady (pipe left right) prev stdin = then-IsSteady (eval-IsSteady left prev stdin) (λ r.
      if-IsSteady (not (succeeded r)) (pure-IsSteady r) (eval-IsSteady right (some r) (some r)))
  eval-IsSteady (and_ left right) prev stdin =
      then-IsSteady (eval-IsSteady left prev stdin)
        (λ r. if-IsSteady (not (succeeded r)) (pure-IsSteady r) (eval-IsSteady right (some r) none))
  eval-IsSteady (or_ left right) prev stdin =
      then-IsSteady (eval-IsSteady left prev stdin)
        (λ r. if-IsSteady (succeeded r) (pure-IsSteady r) (eval-IsSteady right (some r) none))
  eval-IsSteady (group inner) prev stdin = eval-IsSteady inner prev stdin
  eval-IsSteady (if_then cond then_) prev stdin =
      try_else-IsSteady (expression_failure words) (argument_steady cond prev) (λ v.
        if-IsSteady (holds py fl v) (eval-IsSteady then_ prev stdin)
          (pure-IsSteady (success none null)))
  eval-IsSteady (if_else cond then_ else_) prev stdin =
      try_else-IsSteady (expression_failure words) (argument_steady cond prev) (λ v.
        if-IsSteady (holds py fl v) (eval-IsSteady then_ prev stdin)
          (eval-IsSteady else_ prev stdin))
  eval-IsSteady (store inner target append) prev stdin =
      then-IsSteady (eval-IsSteady inner prev stdin) (λ r.
        if-IsSteady (not (succeeded r)) (pure-IsSteady r) (store_result-IsSteady target append r))
