-- ===== src/Runtime/Tests.antt =====
-- The theorems of the runtime at concrete runs.
use doomtp_bot.Prelude.{
  Bool, true, false, ℕ, ◌≡◌, ◌<◌, ◌≤◌, ◌⊎◌, refl, Option, none, some, [], ◌∷◌, points, arith, inl,
  inr, contains, ◌==◌, if◌then◌else◌,
}
use doomtp_bot.Prelude.Int.{
  ℤ, pos, negsuc, abs, is_negative, ◌+ℤ◌, ◌-ℤ◌, ◌*ℤ◌, floor_div, floor_mod, int_comparable,
}
use doomtp_bot.Prelude.Dict
use doomtp_bot.Runtime.Values.{Value, null, integer}
use doomtp_bot.Runtime.Result.{
  Result, raised, returned, success, succeeded, failure, expr_error, e_expr_budget, crashed,
}
use doomtp_bot.Runtime.Ops
use doomtp_bot.Runtime.Ops.{
  add, sub, mul, div, idiv, mod_, whole, max_int, apply_binary, apply_numbers,
}
use doomtp_bot.Runtime.Ops.Bounds.{InRange}
use doomtp_bot.Runtime.Ops.Bounds
use doomtp_bot.Runtime.Variables
use doomtp_bot.Runtime.Variables.{VarKey, WriteOp, set_to, default_limits, Owner}
use doomtp_bot.Runtime.Variables.Apply
use doomtp_bot.Runtime.Variables.Session.{commit, new_session}
use doomtp_bot.Runtime.Variables.Memory
use doomtp_bot.Runtime.Variables.Memory.{Memory, used, commit_writes}
use doomtp_bot.Runtime.Variables.Replay.{store}
use doomtp_bot.Runtime.Variables.Refinement.{Committed, buffer_all}
use doomtp_bot.Runtime.Variables.Refinement
use doomtp_bot.Runtime.Variables.Quota.{Clean}
use doomtp_bot.Runtime.Variables.Usage
use doomtp_bot.Runtime.Ast.{
  Node, command, pipe, and_, or_, lit, Expr, Parts, invocation, no_args, index_in, Invocation,
}
use doomtp_bot.Runtime.Execution.{Action, ◌>>>◌, pure, fail, Run}
use doomtp_bot.Runtime.Execution.Steady.{Kept}
use doomtp_bot.Runtime.Evaluate.Expressions.{evaluate}
use doomtp_bot.Runtime.Node.{eval}
use doomtp_bot.Runtime.Node.Laws
use doomtp_bot.Runtime.Node.Laws.{in_order, as_input, no_input, failed}
use doomtp_bot.Runtime.Preflight.{stdin_receivers}
use doomtp_bot.Runtime.Preflight.Input
use doomtp_bot.Runtime.Executor.Invoke.{run_line}
use doomtp_bot.Runtime.Executor.Lines
use doomtp_bot.Runtime.Samples.{
  small_python, no_floats, four_bytes, no_surroundings, no_words, counting, idle, ping_call,
  ping_scope,
}

abbrev deaths : VarKey
deaths = record {
  ns = points "channel";
  key1 = points "c";
  key2 = [];
  key3 = [];
  name = points "deaths";
}

abbrev three_deaths : WriteOp
three_deaths = record { kind = set_to (integer (pos 3)); key = deaths; path = [] }

abbrev empty_memory : Memory
empty_memory = record { stored = []; caps = default_limits }

abbrev full_memory : Memory
full_memory = record { stored = (deaths, integer (pos 3)) ∷ []; caps = default_limits }

buffer_all-Committed_example :
    Committed small_python no_floats four_bytes empty_memory
      (buffer_all small_python no_floats four_bytes (three_deaths ∷ []) empty_memory new_session)
      (commit
        (store small_python no_floats four_bytes)
        empty_memory
        (buffer_all small_python no_floats four_bytes (three_deaths ∷ []) empty_memory new_session))
buffer_all-Committed_example =
    Refinement.buffer_all-Committed small_python no_floats four_bytes (three_deaths ∷ [])
      empty_memory

stored_deaths :
    commit_writes small_python no_floats four_bytes (three_deaths ∷ []) empty_memory
    ≡ returned full_memory
unfolding commit_writes Memory.stage Memory.stage_one Memory.check_owners Memory.used Apply.apply_op
    Apply.apply_leaf Variables.check_quota Variables.check_value_cap Variables.owner_of
    Variables.first_segment Dict.get Dict.put ◌+ℤ◌ ◌-ℤ◌ points
stored_deaths = refl

commit_writes-quota_example :
    Clean full_memory.stored
    × ((o : Owner)
        → (used small_python no_floats four_bytes o full_memory.stored ≤ default_limits.quota_bytes)
          ⊎ (used small_python no_floats four_bytes o full_memory.stored
              ≤ used small_python no_floats four_bytes o []))
commit_writes-quota_example =
    Usage.commit_writes-quota small_python no_floats four_bytes (three_deaths ∷ []) empty_memory
      full_memory tt stored_deaths

two_and_three :
    apply_binary small_python no_floats add (integer (pos 2)) (integer (pos 3))
    ≡ returned (integer (pos 5))
unfolding apply_binary Ops.number Ops.as_number apply_numbers Ops.operate Ops.checked ◌+ℤ◌
two_and_three = refl

apply_binary-InRange_example : InRange small_python no_floats (integer (pos 5))
apply_binary-InRange_example =
    Bounds.apply_binary-InRange small_python no_floats add (integer (pos 2)) (integer (pos 3))
      (integer (pos 5)) two_and_three

seven_halved :
    apply_numbers small_python no_floats idiv (whole (negsuc 6)) (whole (pos 2))
    ≡ returned (integer (negsuc 3))
unfolding apply_numbers Ops.operate Ops.checked floor_div
seven_halved = refl

seven_left :
    apply_numbers small_python no_floats mod_ (whole (negsuc 6)) (whole (pos 2))
    ≡ returned (integer (pos 1))
unfolding apply_numbers Ops.operate Ops.checked floor_mod
seven_left = refl

apply_numbers-division_example :
    (q : ℤ) × (r : ℤ) × (apply_numbers small_python no_floats idiv
        (whole (negsuc 6))
        (whole (pos 2))
      ≡ returned (integer q))
    × (apply_numbers small_python no_floats mod_ (whole (negsuc 6)) (whole (pos 2))
        ≡ returned (integer r))
    × (q *ℤ pos 2 +ℤ r ≡ negsuc 6)
    × (abs r < abs (pos 2))
    × ((r ≡ pos 0) ⊎ (is_negative r ≡ is_negative (pos 2)))
apply_numbers-division_example =
    Bounds.apply_numbers-division small_python no_floats (negsuc 6) (pos 2) (ground arith)
      (ground arith) (ground arith)

-- Every command answers with its own standard input.
abbrev echo : Option Result → Action ℕ Result
echo none run = (run, returned (success none null))
echo (some r) run = (run, returned r)

abbrev value_ref : Expr → Option Result → Action ℕ Value
value_ref e prev = pure null

abbrev no_argument : Parts → Option Result → Action ℕ Value
no_argument parts prev = pure null

abbrev run_echo : Node → Option Result → Option Result → Action ℕ Result
run_echo =
    eval small_python no_floats four_bytes no_words no_surroundings no_argument value_ref
      (λ inv prev stdin. echo stdin)

abbrev call : Node
call = command ping_call

-- The command of index 1 answers that it failed, and every other one answers with its input.
abbrev picky : Invocation → Option Result → Option Result → Action ℕ Result
picky inv prev stdin run =
    if index_in inv == pos 1 then (run, returned (failure 1 none null)) else echo stdin run

abbrev run_picky : Node → Option Result → Option Result → Action ℕ Result
run_picky =
    eval small_python no_floats four_bytes no_words no_surroundings no_argument value_ref picky

abbrev upper : Node
upper = command (invocation (pos 2) (points "upper") no_args)

eval-in_order_example :
    (run_picky (pipe (pipe upper call) upper) none none (idle 0 0)
      ≡ (run_picky upper none none >>> in_order run_picky succeeded as_input (call ∷ upper ∷ []))
          (idle 0 0))
    × (run_picky (and_ (and_ upper call) upper) none none (idle 0 0)
        ≡ (run_picky upper none none >>> in_order run_picky succeeded no_input (call ∷ upper ∷ []))
            (idle 0 0))
    × (run_picky (or_ (or_ upper call) upper) none none (idle 0 0)
        ≡ (run_picky upper none none >>> in_order run_picky failed no_input (call ∷ upper ∷ []))
            (idle 0 0))
eval-in_order_example =
    Laws.eval-in_order small_python no_floats four_bytes no_words no_surroundings no_argument
      value_ref picky upper (call ∷ upper ∷ []) none none (idle 0 0)

run_line-Kept_example :
    Kept
      (idle 7 0)
      (run_line small_python no_floats four_bytes counting 3 ping_scope
        (and_ call call)
        none
        (idle 7 0)).0
run_line-Kept_example =
    Lines.run_line-Kept small_python no_floats four_bytes counting 3 ping_scope (and_ call call)
      none (idle 7 0)

run_line-budget_example :
    (evaluate small_python no_floats no_surroundings ping_scope.args
      (λ inv prev. pure null)
      (λ v prev. pure null)
      (lit null)
      none
      (run_line small_python no_floats four_bytes counting 3 ping_scope call none
        (idle 1000 0)).0).1
    ≡ raised (expr_error e_expr_budget)
run_line-budget_example =
    Lines.run_line-budget small_python no_floats four_bytes counting 3 ping_scope call none
      (idle 1000 0) (λ inv prev. pure null) (λ v prev. pure null) (lit null) none (omega arith)

-- Hands no input on but to the receivers: another would crash.
abbrev guarded : Bool → Option Result → Action ℕ Result
guarded true stdin = echo stdin
guarded false none = echo none
guarded false (some r) = fail crashed

guarded_agrees :
    (fed : Bool) (stdin : Option Result) (run : Run ℕ)
    → (stdin ≡ none) ⊎ (fed ≡ true)
    → echo stdin run ≡ guarded fed stdin run
guarded_agrees true stdin run h = refl
guarded_agrees false none run h = refl
guarded_agrees false (some r) run (inl e) = absurd (cc e)
guarded_agrees false (some r) run (inr e) = absurd (cc e)

abbrev piped : Node
piped = pipe call upper

eval-receivers_example :
    run_echo piped none none (idle 0 0)
    ≡ eval small_python no_floats four_bytes no_words no_surroundings no_argument value_ref
        (λ inv prev stdin. guarded (contains (index_in inv) (stdin_receivers piped)) stdin)
        piped
        none
        none
        (idle 0 0)
eval-receivers_example =
    Input.eval-receivers small_python no_floats four_bytes no_words no_surroundings no_argument
      value_ref (λ inv prev stdin. echo stdin)
      (λ inv prev stdin. guarded (contains (index_in inv) (stdin_receivers piped)) stdin) piped
      (λ inv prev stdin run h.
        guarded_agrees (contains (index_in inv) (stdin_receivers piped)) stdin run h)
      none (idle 0 0)
