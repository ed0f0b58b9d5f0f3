-- ===== src/Runtime/Executor.antt =====
-- runtime/executor.py: one invocation, from its cooldown to its result, with `{!…}`, `:template` and the
-- bodies of custom commands inside it. The handlers and the policy are fields of `Machine`. The three ways
-- into another expression take fuel. A stage's timeout is the handler's answer; a body has none here.
pub mod Invoke
pub mod Steady
pub mod Keeps
pub mod Lines
use doomtp_bot.Prelude.{
  ℕ, zero, suc, ◌+◌, ◌-◌, Bool, true, false, not, ◌&&◌, ◌||◌, Option, none, some, List, [], ◌∷◌,
  ◌++◌, Text, ltb, leb, eqb, map, points, ◌==◌, nat_eq, list_eq, if◌then◌else◌, or_default,
}
use doomtp_bot.Prelude.Int.{ℤ, int_comparable}
use doomtp_bot.Prelude.Dict.{Dict, get, put}
use doomtp_bot.Runtime.Values.{
  Value, missing, null, text, Fields, end, field, mapping, Python, is_missing, render,
}
use doomtp_bot.Runtime.Values.Lookup.{message_value}
use doomtp_bot.Runtime.Result.{
  Result, success, failure, succeeded, error_result, is_error_code, max_data_bytes, usage_code,
  timeout_code, fail_code, Failure, expr_error, missing_value, subst_failed, variable_error,
  not_declared, usage_error, on_cooldown, command_error, timed_out, run_cancelled, too_deep,
  crashed, e_subst_depth, e_data_too_large, Outcome, raised, returned, ◌>>=◌,
}
use doomtp_bot.Runtime.Ops.{Floats}
use doomtp_bot.Runtime.Variables.Names.{RunIds}
use doomtp_bot.Runtime.Variables.Session.{VariableSession}
use doomtp_bot.Runtime.Ast.{
  Node, Expr, Parts, Args, Invocation, invocation, expression, index_in, name_in,
}
use doomtp_bot.Runtime.Execution.{
  Run, Action, ScopeArgs, max_subst_depth, after, ◌>>>◌, pure, fail, lift,
}
use doomtp_bot.Runtime.Evaluate.{Surroundings, required, whole_result}
use doomtp_bot.Runtime.Evaluate.Expressions.{evaluate, expand, argument, arguments}
use doomtp_bot.Runtime.Node.{
  Wording, expression_failure, variable_failure, first_of, try_else, settle, eval,
}
use doomtp_bot.Runtime.Bind.{Param, Command, bind, scope_args}

-- CustomTarget, with what a run reads of it
pub record CustomTarget : Type 0 where
  pub command_id : Text
  pub owner_id : Text
  pub body : Node

pub record Resolved : Type 0 where
  pub spec : Command
  pub custom : Option CustomTarget
  pub refused : Option Result

-- Scope, without what a run changes of it
pub record Scope : Type 0 where
  pub resolved : Dict ℤ Resolved
  pub args : ScopeArgs
  pub bodies : Dict Text (Dict ℤ Resolved)

-- What the executor is given: the policy's cooldowns, the handlers and the rest of the bot. A handler
-- works on the world and on the run's variables, and on nothing else of the run. A refusal is
-- the decision's code and info.
pub record Machine {ℓ} (W : Type ℓ) : Type ℓ where
  pub around : Surroundings W
  pub dry_run : Bool
  pub is_cancelled : W → Bool
  pub check_cooldown : W → Command → Option (ℕ × Value)
  pub claim_cooldown : W → Command → W × Option (ℕ × Value)
  pub convert : W → Param → Value → Option Value
  pub handle :
      Command
      → Text
      → List Text
      → Fields
      → Option Result
      → Option Result
      → W × VariableSession
      → W × VariableSession × Outcome Result
  -- ops.template_text with parse_template
  pub parse : Value → Outcome Parts
  pub usage : W → Command → Text → Text
  pub words : Wording

module _ {ℓ} {W : Type ℓ} (py : Python) (fl : Floats) (json_size : Value → ℕ) (m : Machine W) where
  -- ctx.ensure_not_cancelled
  abbrev pub ensure_not_cancelled : Action W (Unit {0})
  ensure_not_cancelled run =
      if m.is_cancelled run.world then (run, raised run_cancelled) else (run, returned tt)

  abbrev unless_refused : Option (ℕ × Value) → Outcome (Unit {0})
  unless_refused none = returned tt
  unless_refused (some (code, info)) = raised (on_cooldown code info)

  unfoldable pub look : Command → Action W (Unit {0})
  look spec run = (run, unless_refused (m.check_cooldown run.world spec))

  unfoldable pub claim : Command → Action W (Unit {0})
  claim spec run = if m.dry_run then (run, returned tt) else (
    record run { world = (m.claim_cooldown run.world spec).0 },
    unless_refused (m.claim_cooldown run.world spec).1,
  )

  -- The except clauses of the arguments.
  unfoldable pub refusal_of : Command → W → Failure → Option Result
  refusal_of spec w (on_cooldown code info) = some (failure code (some (points "on cooldown")) info)
  refusal_of spec w (usage_error t) = some (failure usage_code (some (m.usage w spec t)) null)
  refusal_of spec w e = expression_failure m.words e

  -- The except clauses of the stage.
  unfoldable pub stage_failure : Text → Failure → Option Result
  stage_failure name (command_error r) = some r
  stage_failure name (expr_error e) = expression_failure m.words (expr_error e)
  stage_failure name (variable_error e) = variable_failure m.words (variable_error e)
  stage_failure name not_declared = variable_failure m.words not_declared
  stage_failure name timed_out =
      some (failure timeout_code (some (name ++ points " timed out")) null)
  stage_failure name run_cancelled = none
  stage_failure name too_deep = none
  stage_failure name _ = some (failure fail_code (some (name ++ points " failed")) null)

  abbrev not_run : Text → Result
  not_run name =
      success (some [])
        (mapping (field (points "not_run") (text (name ++ points " acts on Twitch")) end))

  -- The handler of a built-in command.
  unfoldable pub run_handler :
      Command → Text → List Text → Fields → Option Result → Option Result → Action W Result
  run_handler spec name values params prev stdin run =
      if spec.side_effects && m.dry_run
      then (run, returned (not_run name))
      else if spec.side_effects && m.is_cancelled run.world
      then (run, raised run_cancelled)
      else let (world, session, outcome) =
          m.handle spec name values params prev stdin (run.world, run.variables) in
        (record run { world = world; variables = session }, outcome)

  -- Codes from 100 on are the runtime's, except that a body's error reaches the caller.
  unfoldable pub own_code : Bool → Result → Result
  own_code from_body r =
      if leb 100 r.code && not (from_body && is_error_code r.code)
      then failure fail_code r.message r.payload
      else r

  unfoldable pub within_size : Result → Result
  within_size r =
      if ltb max_data_bytes (json_size r.payload)
      then error_result e_data_too_large (m.words.told (expr_error e_data_too_large))
          (m.words.detail (expr_error e_data_too_large))
      else r

  -- `scope.results[inv.index] = result`
  abbrev pub noted : Invocation → Result → Action W Result
  noted inv r run = (record run { results = put (index_in inv) r run.results }, returned r)

  abbrev pub ran : Invocation → Result → Action W Result
  ran inv r run =
      (record run { executed = run.executed ++ (index_in inv ∷ []) }, returned (within_size r))

  -- _run_body, for the evaluation of the body in its own scope: its results and its publisher are gone
  -- once it ended, however it ended.
  unfoldable pub run_body : CustomTarget → Action W Result → Action W Result
  run_body target body run =
      let (ended, outcome) = body (record run {
        ids = record {
          chatter = run.ids.chatter;
          channel = run.ids.channel;
          publisher = some target.owner_id;
        };
        results = [];
        executed = [];
      }) in
      (record ended { ids = run.ids; results = run.results; executed = run.executed }, outcome)

  -- substitute, for the way an invocation runs: the depth is put back however it ended.
  unfoldable pub substitute : Action W Result → Action W Value
  substitute invoke run =
      if leb max_subst_depth run.subst_depth
      then (run, raised (expr_error e_subst_depth))
      else let (ended, outcome) = invoke (record run { subst_depth = run.subst_depth + 1 }) in
        (
          record ended { subst_depth = ended.subst_depth - 1 },
          outcome >>= λ r.
              if not (succeeded r)
              then raised (subst_failed r)
              else returned (whole_result (some r)),
        )
