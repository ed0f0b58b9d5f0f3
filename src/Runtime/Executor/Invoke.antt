-- ===== src/Runtime/Executor/Invoke.antt =====
-- runtime/executor.py: _invoke and run. Each step into a `{!…}`, a `:template` or a body takes one of the
-- fuel, which ends in `too_deep`.
use doomtp_bot.Prelude.{
  ℕ, zero, suc, Option, none, some, List, [], ◌∷◌, Text, map, points, nat_eq, list_eq, or_default,
  is_some,
}
use doomtp_bot.Prelude.Int.{int_comparable}
use doomtp_bot.Prelude.Dict.{get}
use doomtp_bot.Runtime.Values.{Value, missing, text, Fields, end, field, Python, render}
use doomtp_bot.Runtime.Result.{Result, missing_value, too_deep, crashed, Outcome, raised, returned}
use doomtp_bot.Runtime.Ops.{Floats}
use doomtp_bot.Runtime.Ast.{Node, Invocation, invocation, expression, index_in, name_in}
use doomtp_bot.Runtime.Execution.{Run, Action, after, ◌>>>◌, pure, fail, lift}
use doomtp_bot.Runtime.Evaluate.{required}
use doomtp_bot.Runtime.Evaluate.Expressions.{evaluate, expand, argument, arguments}
use doomtp_bot.Runtime.Node.{try_else, eval}
use doomtp_bot.Runtime.Bind.{Command, bind, scope_args}
use doomtp_bot.Runtime.Executor.{
  CustomTarget, Resolved, Scope, Machine, ensure_not_cancelled, look, claim, refusal_of,
  stage_failure, run_handler, own_code, noted, ran, run_body, substitute,
}

module _ {ℓ} {W : Type ℓ} (py : Python) (fl : Floats) (json_size : Value → ℕ) (m : Machine W) where
  abbrev pub Substitute : Type ℓ
  Substitute = Invocation → Option Result → Action W Value

  abbrev pub Template : Type ℓ
  Template = Value → Option Result → Action W Value

  abbrev pub gathered : Command → List Value → Action W (List Text × Fields)
  gathered spec raws run =
      after (lift (bind (m.convert run.world) spec (map (render py) raws) raws) run)
        (λ params. pure (map (render py) raws, params))

  -- The arguments of an invocation, and what they are bound to.
  unfoldable pub gather :
      Scope
      → Substitute
      → Template
      → Command
      → Invocation
      → Option Result
      → Action W (List Text × Fields)
  gather scope sub tmp spec (invocation i name args) prev =
      arguments py fl m.around scope.args sub tmp args prev >>> λ raws. gathered spec raws
  gather scope sub tmp spec (expression i name e) prev =
      evaluate py fl m.around scope.args sub tmp e prev >>> λ v.
      required py fl m.around scope.args sub tmp e v >>> λ w.
      pure (render py w ∷ [], field (points "value") w end)

  -- Up to the run: looked at first, and claimed last.
  unfoldable pub prepare :
      Scope
      → Substitute
      → Template
      → Command
      → Invocation
      → Option Result
      → Action W (List Text × Fields)
  prepare scope sub tmp spec inv prev = look py fl json_size m spec >>> λ _.
      gather scope sub tmp spec inv prev >>> λ ready.
      claim py fl json_size m spec >>> λ _. pure ready

  abbrev pub Body : Type ℓ
  Body = CustomTarget → List Text → Fields → Option Result → Action W Result

  abbrev pub main_part :
      Resolved
      → Invocation
      → Body
      → Option Result
      → Option Result
      → List Text × Fields
      → Action W Result
  main_part resolved inv body prev stdin (values, params) = elim resolved.custom [
    | none ↦ run_handler py fl json_size m resolved.spec (name_in inv) values params prev stdin
    | some target ↦ run_body py fl json_size m target (body target values params stdin)
  ]

  -- The stage of an invocation whose arguments are ready.
  unfoldable pub stage :
      Resolved
      → Invocation
      → Body
      → Option Result
      → Option Result
      → List Text × Fields
      → Action W Result
  stage resolved inv body prev stdin ready =
      try_else (main_part resolved inv body prev stdin ready)
        (stage_failure py fl json_size m (name_in inv))
        (λ r. pure (own_code py fl json_size m (is_some resolved.custom) r))
      >>> λ r. ran py fl json_size m inv r

  abbrev pub attempt :
      Scope
      → Substitute
      → Template
      → Body
      → Resolved
      → Invocation
      → Option Result
      → Option Result
      → Action W Result
  attempt scope sub tmp body resolved inv prev stdin run =
      try_else (prepare scope sub tmp resolved.spec inv prev)
        (refusal_of py fl json_size m resolved.spec run.world)
        (λ ready. stage resolved inv body prev stdin ready) run

  -- Preflight's refusal, where it set one.
  abbrev pub refused_or : Invocation → Option Result → Action W Result → Action W Result
  refused_or inv none go = go
  refused_or inv (some r) go = noted py fl json_size m inv r

  unfoldable pub invoke_resolved :
      Scope
      → Substitute
      → Template
      → Body
      → Resolved
      → Invocation
      → Option Result
      → Option Result
      → Action W Result
  invoke_resolved scope sub tmp body resolved inv prev stdin =
      refused_or inv resolved.refused
        (attempt scope sub tmp body resolved inv prev stdin >>> λ r. noted py fl json_size m inv r)

  abbrev pub known_or : Option Resolved → (Resolved → Action W Result) → Action W Result
  known_or none f = fail crashed
  known_or (some resolved) f = f resolved

  -- _invoke, for the ways into other expressions
  unfoldable pub invoke_with :
      Scope
      → Substitute
      → Template
      → Body
      → Invocation
      → Option Result
      → Option Result
      → Action W Result
  invoke_with scope sub tmp body inv prev stdin = ensure_not_cancelled py fl json_size m >>> λ _.
      known_or (get (index_in inv) scope.resolved)
        (λ resolved. invoke_resolved scope sub tmp body resolved inv prev stdin)

  -- `except MissingValue: return MISSING`
  abbrev pub forgiven : Run W × Outcome Text → Run W × Outcome Value
  forgiven (ended, raised (missing_value t)) = (ended, returned missing)
  forgiven (ended, raised e) = (ended, raised e)
  forgiven (ended, returned t) = (ended, returned (text t))

  abbrev pub forgiving : Action W Text → Action W Value
  forgiving a run = forgiven (a run)

  abbrev pub body_scope : Scope → CustomTarget → List Text → Fields → Scope
  body_scope scope target values params = record {
    resolved = or_default (get target.command_id scope.bodies) [];
    args = scope_args values params;
    bodies = scope.bodies;
  }

  unfoldable mutual
    pub invoke : ℕ → Scope → Invocation → Option Result → Option Result → Action W Result
    invoke zero scope inv prev stdin = fail too_deep
    invoke (suc n) scope inv prev stdin =
        invoke_with scope (λ i p. substitute py fl json_size m (invoke n scope i p none))
          (template n scope) (run_in n scope) inv prev stdin

    pub template : ℕ → Scope → Value → Option Result → Action W Value
    template zero scope v prev = fail too_deep
    template (suc n) scope v prev = lift (m.parse v) >>> λ parts. forgiving (
        expand py fl m.around scope.args
          (λ i p. substitute py fl json_size m (invoke n scope i p none)) (template n scope) parts
          prev)

    -- A body, in its own scope.
    pub run_in : ℕ → Scope → CustomTarget → List Text → Fields → Option Result → Action W Result
    run_in zero scope target values params stdin = fail too_deep
    run_in (suc n) scope target values params stdin =
        run_node n (body_scope scope target values params) target.body stdin stdin

    -- _eval in a scope
    pub run_node : ℕ → Scope → Node → Option Result → Option Result → Action W Result
    run_node zero scope node prev stdin = fail too_deep
    run_node (suc n) scope node prev stdin =
        eval py fl json_size m.words m.around
          (argument py fl m.around scope.args
            (λ i p. substitute py fl json_size m (invoke n scope i p none)) (template n scope))
          (λ e p.
            evaluate py fl m.around scope.args
              (λ i q. substitute py fl json_size m (invoke n scope i q none)) (template n scope) e p
            >>> λ v.
                required py fl m.around scope.args
                  (λ i q. substitute py fl json_size m (invoke n scope i q none)) (template n scope)
                  e v)
          (invoke n scope) node prev stdin

  -- run
  unfoldable pub run_line : ℕ → Scope → Node → Option Result → Action W Result
  run_line fuel scope node stdin = run_node fuel scope node stdin stdin
