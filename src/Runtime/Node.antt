-- ===== src/Runtime/Node.antt =====
-- runtime/executor.py: the evaluation of a line's tree (spec §6.3), for the way one invocation runs.
pub mod Steady
pub mod Laws
use doomtp_bot.Prelude.{
  ℕ, Bool, true, false, not, Option, none, some, List, [], ◌∷◌, ◌++◌, Text, all, leb, eqb, ◌&&◌,
  ◌||◌, points, ◌==◌, nat_eq, list_eq, if◌then◌else◌,
}
use doomtp_bot.Prelude.Int.{ℤ}
use doomtp_bot.Runtime.Values.{
  Value, missing, null, boolean, integer, float, text, sequence, mapping, Python, render,
}
use doomtp_bot.Runtime.Result.{
  Result, success, succeeded, failure, error_result, ErrorCode, e_missing_value, Failure,
  expr_error, missing_value, subst_failed, variable_error, not_declared, Outcome, raised, returned,
  ◌>>=◌,
}
use doomtp_bot.Runtime.Ops.{Floats, holds}
use doomtp_bot.Runtime.Variables.{Step, named, numbered, OpKind, set_to, append_of, WriteOp}
use doomtp_bot.Runtime.Variables.Names.{key_for}
use doomtp_bot.Runtime.Variables.Session.{buffer}
use doomtp_bot.Runtime.Ast.{
  Node, command, pipe, and_, or_, group, store, if_then, if_else, Expr, Exprs, no_exprs, next_expr,
  Parts, Target, Invocation,
}
use doomtp_bot.Runtime.Execution.{Run, Action, after, ◌>>>◌, pure, lift}
use doomtp_bot.Runtime.Evaluate.{Surroundings}

-- _WHOLE.fullmatch: `-?(0|[1-9][0-9]*)`
abbrev is_ascii_digit : ℕ → Bool
is_ascii_digit c = leb 48 c && leb c 57

abbrev is_magnitude : Text → Bool
is_magnitude [] = false
is_magnitude (c ∷ []) = is_ascii_digit c
is_magnitude (c ∷ d ∷ cs) = leb 49 c && leb c 57 && all is_ascii_digit (d ∷ cs)

unfoldable pub is_whole : Text → Bool
is_whole [] = false
is_whole (c ∷ cs) = if c == 45 then is_magnitude cs else is_magnitude (c ∷ cs)

abbrev key_text : Python → Text → Step
key_text py t = if is_whole t then numbered (py.read_decimal t) else named t

-- store_key
unfoldable pub store_key : Python → Value → Step
store_key py (integer n) = numbered n
store_key py v = key_text py (render py v)

-- How a failure is told: the message and the data with its identifier.
pub record Wording : Type 0 where
  pub told : Failure → Option Text
  pub detail : Failure → Value

module _ (words : Wording) where
  -- expression_failure; none is an exception of another kind
  unfoldable pub expression_failure : Failure → Option Result
  expression_failure (expr_error e) =
      some (error_result e (words.told (expr_error e)) (words.detail (expr_error e)))
  expression_failure (missing_value t) =
      some (
        error_result e_missing_value (words.told (missing_value t))
          (words.detail (missing_value t)))
  expression_failure (subst_failed r) = some r
  expression_failure _ = none

  -- VariableError.result
  unfoldable pub variable_failure : Failure → Option Result
  variable_failure (variable_error e) =
      some (error_result e (words.told (variable_error e)) (words.detail (variable_error e)))
  variable_failure not_declared = some (failure 126 (words.told not_declared) null)
  variable_failure _ = none

  abbrev pub first_of : Option Result → Option Result → Option Result
  first_of none other = other
  first_of (some r) other = some r

-- `try: m except …: return a result`
module _ {ℓ κ} {W : Type ℓ} {A : Type κ} where
  abbrev pub settle :
      (Failure → Option Result) → (A → Action W Result) → Run W × Outcome A → Run W × Outcome Result
  settle except f (run, raised e) = elim (except e) [
    | none ↦ (run, raised e)
    | some r ↦ (run, returned r)
  ]
  settle except f (run, returned a) = f a run

  abbrev pub try_else :
      Action W A → (Failure → Option Result) → (A → Action W Result) → Action W Result
  try_else m except f run = settle except f (m run)

module _ {ℓ} {W : Type ℓ} (py : Python) (fl : Floats) (json_size : Value → ℕ) (words : Wording)
    (around : Surroundings W) (argument : Parts → Option Result → Action W Value)
    (key_of : Expr → Option Result → Action W Value) where
  abbrev pub path_of : Exprs → Option Result → Action W (List Step)
  path_of no_exprs prev = pure []
  path_of (next_expr e rest) prev =
      key_of e prev >>> λ v. path_of rest prev >>> λ more. pure (store_key py v ∷ more)

  -- `r.data if r.data is not None else r.message`
  unfoldable pub stored_value : Result → Option Value
  stored_value r = elim r.payload [
    | null ↦ elim r.message [ none ↦ none | some t ↦ some (text t) ]
    | v ↦ some v
  ]

  abbrev pub buffered : WriteOp → Action W Value
  buffered op run =
      let (session, outcome) =
        buffer around.variable_store py fl json_size op run.world run.variables in
      (record run { variables = session }, outcome)

  abbrev pub keyed : Text → Text → (Value → OpKind) → Value → List Step → Action W Value
  keyed namespace name kind v path run = elim (key_for run.ids namespace name) [
    | raised e ↦ (run, raised e)
    | returned key ↦ buffered (record { kind = kind v; key = key; path = path }) run
  ]

  -- The write of a store, of a result that has something to keep.
  unfoldable pub write_result : Target → Bool → Result → Value → Action W Result
  write_result target append r v =
      try_else
        (path_of target.path (some r) >>> λ path.
          keyed target.namespace target.name (if append then append_of else set_to) v path)
        (λ e. first_of words (expression_failure words e) (variable_failure words e)) (λ w. pure r)

  unfoldable pub store_result : Target → Bool → Result → Action W Result
  store_result target append r = elim (stored_value r) [
    | none ↦ pure r
    | some v ↦ write_result target append r v
  ]

module _ {ℓ} {W : Type ℓ} (py : Python) (fl : Floats) (json_size : Value → ℕ) (words : Wording)
    (around : Surroundings W) (argument : Parts → Option Result → Action W Value)
    (key_of : Expr → Option Result → Action W Value)
    (invoke : Invocation → Option Result → Option Result → Action W Result) where
  -- _eval
  unfoldable pub eval : Node → Option Result → Option Result → Action W Result
  eval (command inv) prev stdin = invoke inv prev stdin
  eval (pipe left right) prev stdin = eval left prev stdin >>> λ r.
      if not (succeeded r) then pure r else eval right (some r) (some r)
  eval (and_ left right) prev stdin =
      eval left prev stdin >>> λ r. if not (succeeded r) then pure r else eval right (some r) none
  eval (or_ left right) prev stdin =
      eval left prev stdin >>> λ r. if succeeded r then pure r else eval right (some r) none
  eval (group inner) prev stdin = eval inner prev stdin
  eval (if_then cond then_) prev stdin =
      try_else (argument cond prev) (expression_failure words)
        (λ v. if holds py fl v then eval then_ prev stdin else pure (success none null))
  eval (if_else cond then_ else_) prev stdin =
      try_else (argument cond prev) (expression_failure words)
        (λ v. if holds py fl v then eval then_ prev stdin else eval else_ prev stdin)
  eval (store inner target append) prev stdin = eval inner prev stdin >>> λ r.
      if not (succeeded r)
      then pure r
      else store_result py fl json_size words around argument key_of target append r
