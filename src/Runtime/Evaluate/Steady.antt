-- ===== src/Runtime/Evaluate/Steady.antt =====
-- Evaluating an expression is steady where what it substitutes and the templates are.
use doomtp_bot.Prelude.{
  Option, List, [], ◌∷◌, Text, points, ◌==◌, nat_eq, list_eq, inl, inr, Option-cases,
}
use doomtp_bot.Runtime.Values.{Value, missing, Python, is_missing}
use doomtp_bot.Runtime.Result.{Result, missing_value, Outcome-cases}
use doomtp_bot.Runtime.Ops.{Floats}
use doomtp_bot.Runtime.Ops.Collections.{length_value, keys_value, values_value, human}
use doomtp_bot.Runtime.Variables.Names.{key_for}
use doomtp_bot.Runtime.Ast.{
  Root, last_result, result_number, arg_root, args_root, field_root, Expr, ref, Invocation,
}
use doomtp_bot.Runtime.Execution.{Run, Action, ScopeArgs}
use doomtp_bot.Runtime.Execution.Steady.{
  Kept, Kept-refl, IsSteady, fail-IsSteady, pure-IsSteady, lift-IsSteady, if-IsSteady,
}
use doomtp_bot.Runtime.Evaluate.{
  Surroundings, ref_value, variable, required, operand_of, accessed, casted,
}

module _ {ℓ} {W : Type ℓ} (py : Python) (fl : Floats) (around : Surroundings W) (args : ScopeArgs)
    (substitute : Invocation → Option Result → Action W Value)
    (template : Value → Option Result → Action W Value)
    (substitute_steady : (i : Invocation) (p : Option Result) → IsSteady (substitute i p))
    (template_steady : (v : Value) (p : Option Result) → IsSteady (template v p)) where
  pub ref_value-Kept :
      (root : Root) (path : List Text) (prev : Option Result) (run : Run W)
      → Kept run (ref_value py fl around args substitute template root path prev run).0
  unfolding ref_value
  ref_value-Kept last_result path prev run = Kept-refl run
  ref_value-Kept (result_number n) path prev run = Kept-refl run
  ref_value-Kept arg_root path prev run = Kept-refl run
  ref_value-Kept args_root path prev run = Kept-refl run
  ref_value-Kept (field_root name) path prev run = Kept-refl run

  pub variable-Kept :
      (namespace name : Text) (run : Run W)
      → Kept run (variable py fl around args substitute template namespace name run).0
  unfolding variable
  variable-Kept namespace name run = elim (Outcome-cases (key_for run.ids namespace name)) [
    | inl (e, failed) ↦ rw (failed, variable) (Kept-refl run)
    | inr (key, made) ↦ rw (made, variable) (Kept-refl run)
  ]

  pub required-IsSteady :
      (e : Expr) (v : Value) → IsSteady (required py fl around args substitute template e v)
  required-IsSteady e v =
      if-IsSteady (is_missing v) (fail-IsSteady (missing_value (around.spell e))) (pure-IsSteady v)

  operand_of-Kept :
      (e : Expr) (prev : Option Result) (m : Action W Value) (run : Run W)
      → IsSteady m
      → Kept run (operand_of py fl around args substitute template e prev m run).0
  operand_of-Kept (ref last_result []) prev m run s = Kept-refl run
  operand_of-Kept (ref (result_number n) []) prev m run s = Kept-refl run
  operand_of-Kept (ref last_result (x ∷ xs)) prev m run s = s.kept run
  operand_of-Kept (ref (result_number n) (x ∷ xs)) prev m run s = s.kept run
  operand_of-Kept e prev m run s = s.kept run

  pub operand_of-IsSteady :
      (e : Expr) (prev : Option Result) {m : Action W Value}
      → IsSteady m
      → IsSteady (operand_of py fl around args substitute template e prev m)
  operand_of-IsSteady e prev {m} s = record { kept = λ run. operand_of-Kept e prev m run s }

  casted-Kept :
      (name : Text) (choices : List Text) (v : Value) (run : Run W)
      → Kept run (casted py fl around args substitute template name choices v run).0
  casted-Kept name choices v run = elim (Option-cases (around.cast run.world name choices v)) [
    | inl none_is ↦ rw (none_is, casted) (Kept-refl run)
    | inr (w, made) ↦ rw (made, casted) (Kept-refl run)
  ]

  pub accessed-IsSteady :
      (name : Text) (choices : List Text) (prev : Option Result) (v : Value)
      → IsSteady (accessed py fl around args substitute template name choices prev v)
  accessed-IsSteady name choices prev v = if-IsSteady (is_missing v) (pure-IsSteady missing) (
      if-IsSteady (name == points "len") (lift-IsSteady (length_value py fl v)) (
        if-IsSteady (name == points "keys") (lift-IsSteady (keys_value py fl v)) (
          if-IsSteady (name == points "values") (lift-IsSteady (values_value py fl v)) (
            if-IsSteady (name == points "template") (template_steady v prev) (
              if-IsSteady (name == points "human") (lift-IsSteady (human py fl v))
                (record { kept = casted-Kept name choices v }))))))
