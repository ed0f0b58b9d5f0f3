-- ===== src/Runtime/Bind.antt =====
-- runtime/executor.py: the arguments of an invocation bound to its command's parameters (spec §5.3), and
-- the arguments of a scope made of words. A cast to a parameter's type is an argument.
use doomtp_bot.Prelude.{
  ℕ, zero, suc, ◌+◌, ◌-◌, Bool, not, ◌&&◌, Option, none, some, List, [], ◌∷◌, ◌++◌, Text, ltb, any,
  drop, length, join, points, if◌then◌else◌,
}
use doomtp_bot.Runtime.Values.{Value, text, Fields, end, set_field}
use doomtp_bot.Runtime.Result.{Outcome, raised, returned, ◌>>=◌, usage_error}
use doomtp_bot.Runtime.Execution.{ScopeArgs}

-- Param, with its index and whether its position ends in `+` read off
pub record Param : Type 0 where
  pub index : ℕ
  pub variadic : Bool
  pub name : Text
  pub kind : Text
  pub required : Bool
  pub default : Value

-- CommandSpec, with what a run reads of it
pub record Command : Type 0 where
  pub name : Text
  pub params : List Param
  pub side_effects : Bool

abbrev nth {ℓ} : {A : Type ℓ} → List A → ℕ → Option A
nth [] n = none
nth (x ∷ xs) zero = some x
nth (x ∷ xs) (suc n) = nth xs n

abbrev given_text : Text → Option Value
given_text [] = none
given_text (c ∷ cs) = some (text (c ∷ cs))

-- What a parameter is given: none where it is left out.
unfoldable pub raw_for : Param → List Text → List Value → Option Value
raw_for p values raws =
    if p.variadic
    then given_text (join (drop (p.index - 1) values))
    else if ltb (p.index - 1) (length values)
    then nth raws (p.index - 1)
    else none

module _ (convert : Param → Value → Option Value) where
  abbrev bound_value : Param → Option Value → Outcome Value
  bound_value p none =
      if p.required
      then raised (usage_error (p.name ++ points " is required"))
      else returned p.default
  bound_value p (some raw) = elim (convert p raw) [
    | none ↦ raised (usage_error p.name)
    | some v ↦ returned v
  ]

  -- The loop over the parameters.
  unfoldable pub bind_params : List Param → List Text → List Value → Fields → Outcome Fields
  bind_params [] values raws bound = returned bound
  bind_params (p ∷ ps) values raws bound = bound_value p (raw_for p values raws) >>= λ v.
      bind_params ps values raws (set_field p.name v bound)

  -- bind
  unfoldable pub bind : Command → List Text → List Value → Outcome Fields
  bind spec values raws =
      if not (any (λ p. p.variadic) spec.params) && ltb (length spec.params) (length values)
      then raised (
          usage_error (elim spec.params [
            | [] ↦ points "takes no arguments"
            | _ ∷ _ ↦ points "too many arguments"
          ]))
      else bind_params spec.params values raws end

-- _offsets
unfoldable pub offsets_from : ℕ → List Text → List ℕ
offsets_from at [] = []
offsets_from at (value ∷ values) = at ∷ offsets_from (at + length value + 1) values

-- ScopeArgs.of
unfoldable pub scope_args : List Text → Fields → ScopeArgs
scope_args values params = record {
  values = values;
  raw_text = join values;
  raw_offsets = offsets_from 0 values;
  params = params;
}
