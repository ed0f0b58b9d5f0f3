-- ===== src/Runtime/Executor/Keeps.antt =====
-- An invocation, and every line of any depth, is steady.
use doomtp_bot.Prelude.{
  ℕ, zero, suc, Option, none, some, List, Text, map, inl, inr, Bool-cases, Option-cases, nat_eq,
  list_eq,
}
use doomtp_bot.Prelude.Int.{int_comparable}
use doomtp_bot.Prelude.Dict.{get}
use doomtp_bot.Runtime.Values.{Value, Fields, Python, render}
use doomtp_bot.Runtime.Result.{
  Result, Outcome, raised, returned, missing_value, too_deep, crashed, Outcome-cases,
}
use doomtp_bot.Runtime.Ops.{Floats}
use doomtp_bot.Runtime.Ast.{Node, Invocation, invocation, expression, index_in, name_in}
use doomtp_bot.Runtime.Execution.{Run, Action}
use doomtp_bot.Runtime.Execution.Steady.{
  Kept, Kept-refl, IsSteady, fail-IsSteady, pure-IsSteady, lift-IsSteady, then-IsSteady,
}
use doomtp_bot.Runtime.Evaluate.Steady.{required-IsSteady}
use doomtp_bot.Runtime.Evaluate.Keeps.{
  evaluate-IsSteady, expand-IsSteady, argument-IsSteady, arguments-IsSteady,
}
use doomtp_bot.Runtime.Node.Steady.{try_else-IsSteady, eval-IsSteady}
use doomtp_bot.Runtime.Bind.{Command, bind}
use doomtp_bot.Runtime.Executor.{
  CustomTarget, Resolved, Scope, Machine, ensure_not_cancelled, refusal_of, stage_failure,
}
use doomtp_bot.Runtime.Executor.Invoke.{
  Substitute, Template, Body, gathered, gather, prepare, main_part, stage, attempt, refused_or,
  known_or, invoke_resolved, invoke_with, forgiven, forgiving, body_scope, invoke, template, run_in,
  run_node,
}
use doomtp_bot.Runtime.Executor.Steady.{
  substitute-IsSteady, run_body-IsSteady, run_handler-Kept, claim-Kept, look-Kept, noted-IsSteady,
}

module _ {ℓ} {W : Type ℓ} (py : Python) (fl : Floats) (json_size : Value → ℕ) (m : Machine W) where
  module _ (scope : Scope) (sub : Substitute py fl json_size m) (tmp : Template py fl json_size m)
      (sub_steady : (i : Invocation) (p : Option Result) → IsSteady (sub i p))
      (tmp_steady : (v : Value) (p : Option Result) → IsSteady (tmp v p)) where
    gathered-Kept :
        (spec : Command) (raws : List Value) (run : Run W)
        → Kept run (gathered py fl json_size m spec raws run).0
    gathered-Kept spec raws run =
        elim (Outcome-cases (bind (m.convert run.world) spec (map (render py) raws) raws)) [
          | inl (e, failed) ↦ rw (failed, gathered) (Kept-refl run)
          | inr (params, made) ↦ rw (made, gathered) (Kept-refl run)
        ]

    gather-IsSteady :
        (spec : Command) (inv : Invocation) (prev : Option Result)
        → IsSteady (gather py fl json_size m scope sub tmp spec inv prev)
    unfolding gather
    gather-IsSteady spec (invocation i name args) prev =
        then-IsSteady
          (arguments-IsSteady py fl m.around scope.args sub tmp sub_steady tmp_steady args prev)
          (λ raws. record { kept = gathered-Kept spec raws })
    gather-IsSteady spec (expression i name e) prev =
        then-IsSteady
          (evaluate-IsSteady py fl m.around scope.args sub tmp sub_steady tmp_steady e prev)
          (λ v.
            then-IsSteady
              (required-IsSteady py fl m.around scope.args sub tmp sub_steady tmp_steady e v)
              (λ w. pure-IsSteady _))

    prepare-IsSteady :
        (spec : Command) (inv : Invocation) (prev : Option Result)
        → IsSteady (prepare py fl json_size m scope sub tmp spec inv prev)
    unfolding prepare
    prepare-IsSteady spec inv prev =
        then-IsSteady (record { kept = look-Kept py fl json_size m spec })
          (λ _. then-IsSteady (gather-IsSteady spec inv prev) (λ ready.
            then-IsSteady (record { kept = claim-Kept py fl json_size m spec })
              (λ _. pure-IsSteady ready)))

    module _ (body : Body py fl json_size m)
        (body_steady : (t : CustomTarget) (vs : List Text) (ps : Fields) (p : Option Result)
          → IsSteady (body t vs ps p)) where
      main_part-IsSteady :
          (resolved : Resolved) (inv : Invocation) (prev stdin : Option Result) (values : List Text)
          (params : Fields)
          → IsSteady (main_part py fl json_size m resolved inv body prev stdin (values, params))
      main_part-IsSteady resolved inv prev stdin values params =
          elim (Option-cases resolved.custom) [
            | inl builtin ↦
                rw (builtin, main_part)
                  (record {
                    kept =
                        run_handler-Kept py fl json_size m resolved.spec (name_in inv) values params
                          prev stdin;
                  })
            | inr (target, custom) ↦
                rw (custom, main_part)
                  (run_body-IsSteady py fl json_size m target (body target values params stdin)
                    (body_steady target values params stdin))
          ]

      stage-IsSteady :
          (resolved : Resolved) (inv : Invocation) (prev stdin : Option Result) (values : List Text)
          (params : Fields)
          → IsSteady (stage py fl json_size m resolved inv body prev stdin (values, params))
      unfolding stage
      stage-IsSteady resolved inv prev stdin values params =
          then-IsSteady
            (try_else-IsSteady (stage_failure py fl json_size m (name_in inv))
              (main_part-IsSteady resolved inv prev stdin values params) (λ r. pure-IsSteady _))
            (λ r. record { kept = λ run. Kept-refl run })

      attempt-IsSteady :
          (resolved : Resolved) (inv : Invocation) (prev stdin : Option Result)
          → IsSteady (attempt py fl json_size m scope sub tmp body resolved inv prev stdin)
      attempt-IsSteady resolved inv prev stdin = record {
        kept = λ run.
            (try_else-IsSteady (refusal_of py fl json_size m resolved.spec run.world)
                (prepare-IsSteady resolved.spec inv prev)
                (λ ready. stage-IsSteady resolved inv prev stdin ready.0 ready.1)).kept
              run;
      }

      refused_or-IsSteady :
          (inv : Invocation) (refused : Option Result) {go : Action W Result}
          → IsSteady go
          → IsSteady (refused_or py fl json_size m inv refused go)
      refused_or-IsSteady inv none s = s
      refused_or-IsSteady inv (some r) s = noted-IsSteady py fl json_size m inv r

      invoke_resolved-IsSteady :
          (resolved : Resolved) (inv : Invocation) (prev stdin : Option Result)
          → IsSteady (invoke_resolved py fl json_size m scope sub tmp body resolved inv prev stdin)
      unfolding invoke_resolved
      invoke_resolved-IsSteady resolved inv prev stdin = refused_or-IsSteady inv resolved.refused (
          then-IsSteady (attempt-IsSteady resolved inv prev stdin)
            (λ r. noted-IsSteady py fl json_size m inv r))

      known_or-IsSteady :
          (found : Option Resolved) {f : Resolved → Action W Result}
          → ((r : Resolved) → IsSteady (f r))
          → IsSteady (known_or py fl json_size m found f)
      known_or-IsSteady none s = fail-IsSteady crashed
      known_or-IsSteady (some r) s = s r

      ensure_not_cancelled-Kept :
          (run : Run W) → Kept run (ensure_not_cancelled py fl json_size m run).0
      ensure_not_cancelled-Kept run = elim (Bool-cases (m.is_cancelled run.world)) [
        | inl late ↦ rw (late, ensure_not_cancelled) (Kept-refl run)
        | inr fine ↦ rw (fine, ensure_not_cancelled) (Kept-refl run)
      ]

      pub invoke_with-IsSteady :
          (inv : Invocation) (prev stdin : Option Result)
          → IsSteady (invoke_with py fl json_size m scope sub tmp body inv prev stdin)
      unfolding invoke_with
      invoke_with-IsSteady inv prev stdin =
          then-IsSteady (record { kept = ensure_not_cancelled-Kept })
            (λ _.
              known_or-IsSteady (get (index_in inv) scope.resolved)
                (λ resolved. invoke_resolved-IsSteady resolved inv prev stdin))

  forgiven-Kept :
      (run : Run W) (p : Run W × Outcome Text)
      → Kept run p.0
      → Kept run (forgiven py fl json_size m p).0
  forgiven-Kept run (ended, raised (missing_value t)) k = k
  forgiven-Kept run (ended, raised e) k = k
  forgiven-Kept run (ended, returned t) k = k

  forgiving-IsSteady : {a : Action W Text} → IsSteady a → IsSteady (forgiving py fl json_size m a)
  forgiving-IsSteady {a} s = record { kept = λ run. forgiven-Kept run (a run) (s.kept run) }

  mutual
    unfolding invoke template run_in run_node

    pub invoke-IsSteady :
        (n : ℕ) (scope : Scope) (inv : Invocation) (prev stdin : Option Result)
        → IsSteady (invoke py fl json_size m n scope inv prev stdin)
    invoke-IsSteady zero scope inv prev stdin = fail-IsSteady too_deep
    invoke-IsSteady (suc n) scope inv prev stdin =
        invoke_with-IsSteady scope _ _
          (λ i p. substitute-IsSteady py fl json_size m _ (invoke-IsSteady n scope i p none))
          (template-IsSteady n scope) _ (run_in-IsSteady n scope) inv prev stdin

    pub template-IsSteady :
        (n : ℕ) (scope : Scope) (v : Value) (prev : Option Result)
        → IsSteady (template py fl json_size m n scope v prev)
    template-IsSteady zero scope v prev = fail-IsSteady too_deep
    template-IsSteady (suc n) scope v prev = then-IsSteady (lift-IsSteady (m.parse v)) (λ parts.
        forgiving-IsSteady (
          expand-IsSteady py fl m.around scope.args _ _
            (λ i p. substitute-IsSteady py fl json_size m _ (invoke-IsSteady n scope i p none))
            (template-IsSteady n scope) parts prev))

    pub run_in-IsSteady :
        (n : ℕ) (scope : Scope) (target : CustomTarget) (values : List Text) (params : Fields)
        (stdin : Option Result)
        → IsSteady (run_in py fl json_size m n scope target values params stdin)
    run_in-IsSteady zero scope target values params stdin = fail-IsSteady too_deep
    run_in-IsSteady (suc n) scope target values params stdin =
        run_node-IsSteady n (body_scope py fl json_size m scope target values params) target.body
          stdin stdin

    pub run_node-IsSteady :
        (n : ℕ) (scope : Scope) (node : Node) (prev stdin : Option Result)
        → IsSteady (run_node py fl json_size m n scope node prev stdin)
    run_node-IsSteady zero scope node prev stdin = fail-IsSteady too_deep
    run_node-IsSteady (suc n) scope node prev stdin =
        eval-IsSteady py fl json_size m.words m.around _ _ _
          (argument-IsSteady py fl m.around scope.args _ _
            (λ i p. substitute-IsSteady py fl json_size m _ (invoke-IsSteady n scope i p none))
            (template-IsSteady n scope))
          (λ e p.
            then-IsSteady
              (evaluate-IsSteady py fl m.around scope.args _ _
                (λ i q. substitute-IsSteady py fl json_size m _ (invoke-IsSteady n scope i q none))
                (template-IsSteady n scope) e p)
              (λ v.
                required-IsSteady py fl m.around scope.args _ _
                  (λ i q.
                    substitute-IsSteady py fl json_size m _ (invoke-IsSteady n scope i q none))
                  (template-IsSteady n scope) e v))
          (invoke-IsSteady n scope) node prev stdin
