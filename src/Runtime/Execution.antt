-- ===== src/Runtime/Execution.antt =====
-- runtime/executor.py and runtime/context.py: the state of a run, and a step of one. A step changes the
-- state also where it raises, as an exception does not undo what was done before it.
pub mod Steady
use doomtp_bot.Prelude.{
  ℕ, ◌+◌, ◌-◌, ◌≡◌, refl, String, Bool, true, false, Option, none, some, List, [], ◌∷◌, Text, ltb,
  arith, if◌then◌else◌,
}
use doomtp_bot.Prelude.Int.{ℤ}
use doomtp_bot.Prelude.Dict.{Dict}
use doomtp_bot.Runtime.Values.{Value, Fields, end}
use doomtp_bot.Runtime.Result.{
  Result, Outcome, raised, returned, Failure, expr_error, ErrorCode, e_expr_budget,
}
use doomtp_bot.Runtime.Variables.Names.{RunIds}
use doomtp_bot.Runtime.Variables.Session.{VariableSession}

-- MAX_EXPR_OPS and MAX_SUBST_DEPTH
abbrev pub max_expr_ops : ℕ
max_expr_ops = 1000

abbrev pub max_subst_depth : ℕ
max_subst_depth = 3

pub record ScopeArgs : Type 0 where
  pub values : List Text
  pub raw_text : Text
  pub raw_offsets : List ℕ
  pub params : Fields

abbrev pub no_scope_args : ScopeArgs
no_scope_args = record { values = []; raw_text = []; raw_offsets = []; params = end }

-- The fields of the context and of the scope that a run changes. The world is what the commands and the
-- policy keep.
pub record Run {ℓ} (W : Type ℓ) : Type ℓ where
  pub expr_ops : ℕ
  pub subst_depth : ℕ
  pub ids : RunIds
  pub variables : VariableSession
  pub results : Dict ℤ Result
  pub executed : List ℤ
  pub world : W

abbrev pub Action {ℓ κ} : Type ℓ → Type κ → Type (ℓ ⊔ κ)
Action W A = Run W → Run W × Outcome A

module _ {ℓ κ μ} {W : Type ℓ} {A : Type κ} {B : Type μ} where
  abbrev pub after : Run W × Outcome A → (A → Action W B) → Run W × Outcome B
  after (run, raised e) f = (run, raised e)
  after (run, returned a) f = f a run

  infixl 5 ◌>>>◌
  abbrev pub ◌>>>◌ : Action W A → (A → Action W B) → Action W B
  (m >>> f) run = after (m run) f

module _ {ℓ κ} {W : Type ℓ} {A : Type κ} where
  abbrev pub pure : A → Action W A
  pure a run = (run, returned a)

  abbrev pub fail : Failure → Action W A
  fail e run = (run, raised e)

  abbrev pub lift : Outcome A → Action W A
  lift o run = (run, o)

  -- One step of an expression, charged to the run's budget before it is taken.
  unfoldable pub counted : Action W A → Action W A
  counted m run =
      let charged = record run { expr_ops = run.expr_ops + 1 } in
      if ltb max_expr_ops charged.expr_ops
      then (charged, raised (expr_error e_expr_budget))
      else m charged
