-- ===== src/Runtime/Evaluate.antt =====
-- runtime/executor.py: the values of expressions, placeholders and arguments. What `{!…}` and `:template`
-- run is an argument, as both lead out of the expression.
pub mod Expressions
pub mod Steady
pub mod Keeps
use doomtp_bot.Prelude.{
  ℕ, zero, suc, ◌+◌, ◌-◌, String, Bool, true, false, not, ◌&&◌, ◌||◌, Option, none, some, List, [],
  ◌∷◌, ◌++◌, Text, leb, ltb, eqb, ◌==◌, nat_eq, list_eq, all, drop, length, join, points, contains,
  if◌then◌else◌,
}
use doomtp_bot.Prelude.Int.{ℤ, pos, negsuc, int_comparable}
use doomtp_bot.Prelude.Dict.{get}
use doomtp_bot.Runtime.Values.{
  Value, missing, null, boolean, integer, text, Items, Fields, Python, is_missing, render, field_at,
}
use doomtp_bot.Runtime.Values.Lookup.{message_value, descend, result_value, is_digits}
use doomtp_bot.Runtime.Result.{
  Result, Outcome, raised, returned, ◌>>=◌, Failure, missing_value, crashed,
}
use doomtp_bot.Runtime.Ops.{
  Floats, BinaryOp, CompareOp, truthy, apply_binary, apply_not, apply_minus,
}
use doomtp_bot.Runtime.Ops.Compare.{compare_values}
use doomtp_bot.Runtime.Ops.Collections.{index, length_value, keys_value, values_value, human}
use doomtp_bot.Runtime.Variables.{VarKey}
use doomtp_bot.Runtime.Variables.Names.{key_for}
use doomtp_bot.Runtime.Variables.Session.{VariableStore, read}
use doomtp_bot.Runtime.Ast.{
  Root, last_result, result_number, arg_root, args_root, field_root, Expr, lit, ref, var_ref,
  index_of, access, minus, not_, binary, if_missing, both, either, compare, subst, bare,
  with_fallback, Exprs, no_exprs, next_expr, Links, no_links, link, Parts, no_parts, text_part,
  placeholder, Args, no_args, next_arg, Invocation,
}
use doomtp_bot.Runtime.Execution.{Run, Action, ScopeArgs, ◌>>>◌, pure, fail, lift, counted}

-- What the evaluation asks of the rest of the bot: its fields, the casts, and the wording of a reference.
pub record Surroundings {ℓ} (W : Type ℓ) : Type ℓ where
  pub variable_store : VariableStore W
  -- ref_value of the roots that are no results and no arguments
  pub bot_field : W → Text → List Text → Value
  -- convert with the name of a type and its choices; none is a ConversionError
  pub cast : W → Text → List Text → Value → Option Value
  -- render_expr
  pub spell : Expr → Text

-- text.removesuffix(suffix), where it ends in it
unfoldable pub without_suffix : Text → Text → Option Text
without_suffix suffix [] = if suffix == [] then some [] else none
without_suffix suffix (c ∷ cs) =
    let rest = without_suffix suffix cs in
    if suffix == (c ∷ cs) then some [] else elim rest [ none ↦ none | some t ↦ some (c ∷ t) ]

abbrev nth {ℓ} : {A : Type ℓ} → List A → ℕ → Option A
nth [] n = none
nth (x ∷ xs) zero = some x
nth (x ∷ xs) (suc n) = nth xs n

module _ (py : Python) where
  -- args.values[n - 1], where 1 <= n <= len(args.values)
  abbrev numbered_arg : ScopeArgs → List Text → Option ℤ → Outcome Value
  numbered_arg args rest none = raised crashed
  numbered_arg args rest (some (pos zero)) = returned missing
  numbered_arg args rest (some (pos (suc n))) = elim (nth args.values n) [
    | none ↦ returned missing
    | some t ↦ descend py (text t) rest
  ]
  numbered_arg args rest (some (negsuc n)) = returned missing

  abbrev raw_from : ScopeArgs → ℕ → Outcome Value
  raw_from args n = elim args.raw_offsets [
    | [] ↦ returned (text (join (drop n args.values)))
    | _ ∷ _ ↦ elim (nth args.raw_offsets n) [
      | none ↦ raised crashed
      | some offset ↦ returned (text (drop offset args.raw_text))
    ]
  ]

  -- `arg.N+` and `arg.N+raw`
  abbrev args_from : ScopeArgs → Bool → Option ℤ → Outcome Value
  args_from args raw none = raised crashed
  args_from args raw (some (pos zero)) = returned missing
  args_from args raw (some (pos (suc n))) =
      if leb (length args.values) n
      then returned missing
      else if raw
      then raw_from args n
      else returned (text (join (drop n args.values)))
  args_from args raw (some (negsuc n)) = returned missing

  abbrev param_value : ScopeArgs → Text → List Text → Outcome Value
  param_value args head rest = elim (field_at head args.params) [
    | none ↦ returned missing
    | some v ↦ descend py v rest
  ]

  -- arg_value
  unfoldable pub arg_value : ScopeArgs → List Text → Outcome Value
  arg_value args [] = raised crashed
  arg_value args (head ∷ rest) =
      if head == points "count"
      then returned (elim rest [ [] ↦ integer (pos (length args.values)) | _ ∷ _ ↦ missing ])
      else elim (without_suffix (points "+raw") head) [
        | some number ↦ args_from args true (py.read_int number)
        | none ↦ elim (without_suffix (points "+") head) [
          | some number ↦ args_from args false (py.read_int number)
          | none ↦
              if is_digits py head
              then numbered_arg args rest (py.read_int head)
              else param_value args head rest
        ]
      ]

-- `r.data`, or else `r.message`
abbrev pub whole_result : Option Result → Value
whole_result none = missing
whole_result (some r) = elim r.payload [ null ↦ message_value r.message | v ↦ v ]

module _ {ℓ} {W : Type ℓ} where
  -- result_ref, of a root that names a result
  unfoldable pub result_ref : Root → Run W → Option Result → Option Result
  result_ref last_result run prev = prev
  result_ref (result_number n) run prev =
      if contains n run.executed then get n run.results else none
  result_ref arg_root run prev = none
  result_ref args_root run prev = none
  result_ref (field_root name) run prev = none

  module _ (py : Python) (fl : Floats) (around : Surroundings W) (args : ScopeArgs)
      (substitute : Invocation → Option Result → Action W Value)
      (template : Value → Option Result → Action W Value) where
    abbrev pub of_result : Option Result → List Text → Outcome Value
    of_result none path = returned missing
    of_result (some r) path = result_value py r path

    -- ref_value
    unfoldable pub ref_value : Root → List Text → Option Result → Action W Value
    ref_value last_result path prev run = (run, of_result (result_ref last_result run prev) path)
    ref_value (result_number n) path prev run =
        (run, of_result (result_ref (result_number n) run prev) path)
    ref_value arg_root path prev run = (run, arg_value py args path)
    ref_value args_root path prev run = (run, arg_value py args (points "1+" ∷ []))
    ref_value (field_root name) path prev run =
        (run, returned (around.bot_field run.world name path))

    -- The value of a variable, and MISSING where the run has no such key.
    unfoldable pub variable : Text → Text → Action W Value
    variable namespace name run = elim (key_for run.ids namespace name) [
      | raised e ↦ (run, returned missing)
      | returned key ↦ (run, returned (read around.variable_store run.world run.variables key))
    ]

    -- _key, for the value of an expression
    abbrev pub required : Expr → Value → Action W Value
    required e v = if is_missing v then fail (missing_value (around.spell e)) else pure v

    -- What `[ ]` and `:` work on: a bare result is its data, or else its message (_operand).
    abbrev pub operand_of : Expr → Option Result → Action W Value → Action W Value
    operand_of (ref last_result []) prev m run = (run, returned (whole_result prev))
    operand_of (ref (result_number n) []) prev m run =
        (run, returned (whole_result (result_ref (result_number n) run prev)))
    operand_of _ prev m run = m run

    abbrev pub casted : Text → List Text → Value → Action W Value
    casted name choices v run = elim (around.cast run.world name choices v) [
      | none ↦ (run, returned missing)
      | some w ↦ (run, returned w)
    ]

    abbrev pub accessed : Text → List Text → Option Result → Value → Action W Value
    accessed name choices prev v =
        if is_missing v
        then pure missing
        else if name == points "len"
        then lift (length_value py fl v)
        else if name == points "keys"
        then lift (keys_value py fl v)
        else if name == points "values"
        then lift (values_value py fl v)
        else if name == points "template"
        then template v prev
        else if name == points "human"
        then lift (human py fl v)
        else casted name choices v
