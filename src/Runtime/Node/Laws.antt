-- ===== src/Runtime/Node/Laws.antt =====
-- The sequences of a line, against the loop that they stand for.
use doomtp_bot.Prelude.{
  ℕ, Bool, false, not, ◌∙◌, ap, Option, none, some, List, [], ◌∷◌, ◌≡◌, refl, inl, inr, Bool-cases,
  if◌then◌else◌,
}
use doomtp_bot.Runtime.Values.{Value, Python}
use doomtp_bot.Runtime.Result.{Result, succeeded, Outcome, raised, returned}
use doomtp_bot.Runtime.Ops.{Floats}
use doomtp_bot.Runtime.Ast.{Node, pipe, and_, or_, Expr, Parts, Invocation}
use doomtp_bot.Runtime.Execution.{Run, Action, after, ◌>>>◌, pure}
use doomtp_bot.Runtime.Evaluate.{Surroundings}
use doomtp_bot.Runtime.Node.{Wording, eval}

-- `a op b op c`, as the parser groups it: to the left.
abbrev pub joined : (Node → Node → Node) → Node → List Node → Node
joined op first [] = first
joined op first (next ∷ rest) = joined op (op first next) rest

-- What a pipe hands on as input.
abbrev pub as_input : Result → Option Result
as_input r = some r

-- What `&&` and `||` hand on as input.
abbrev pub no_input : Result → Option Result
no_input r = none

abbrev pub failed : Result → Bool
failed r = not (succeeded r)

module _ {ℓ} {W : Type ℓ} (run_node : Node → Option Result → Option Result → Action W Result)
    (go_on : Result → Bool) (hand : Result → Option Result) where
  -- The loop: while the last result goes on, the next node runs with it as `prev` and with what it hands
  -- on as input; the first result that does not go on is the answer, and no later node runs.
  abbrev pub in_order : List Node → Result → Action W Result
  in_order [] r = pure r
  in_order (next ∷ rest) r =
      if go_on r then run_node next (some r) (hand r) >>> in_order rest else pure r

  -- An operator that runs its left side and, while that goes on, its right side.
  abbrev RunsBoth : (Node → Node → Node) → Type ℓ
  RunsBoth op =
      (a b : Node) (prev stdin : Option Result) (run : Run W)
      → run_node (op a b) prev stdin run
        ≡ after (run_node a prev stdin run)
            (λ r. if go_on r then run_node b (some r) (hand r) else pure r)

  stopped_stays :
      (rest : List Node) (r : Result) (run : Run W)
      → go_on r ≡ false
      → in_order rest r run ≡ (run, returned r)
  stopped_stays [] r run h = refl
  stopped_stays (next ∷ rest) r run h = rw h refl

  in_order_next :
      (next : Node) (rest : List Node) (p : Run W × Outcome Result)
      → after
          (after p (λ r. if go_on r then run_node next (some r) (hand r) else pure r))
          (in_order rest)
        ≡ after p (in_order (next ∷ rest))
  in_order_next next rest (run, raised e) = refl
  in_order_next next rest (run, returned r) = elim (Bool-cases (go_on r)) [
    | inl on ↦ rw on refl
    | inr stop ↦ rw stop (stopped_stays rest r run stop)
  ]

  after_pure : (p : Run W × Outcome Result) → p ≡ after p (in_order [])
  after_pure (run, raised e) = refl
  after_pure (run, returned r) = refl

  joined-in_order :
      (op : Node → Node → Node)
      → RunsBoth op
      → (first : Node) (rest : List Node) (prev stdin : Option Result) (run : Run W)
      → run_node (joined op first rest) prev stdin run
        ≡ after (run_node first prev stdin run) (in_order rest)
  joined-in_order op both first [] prev stdin run = after_pure (run_node first prev stdin run)
  joined-in_order op both first (next ∷ rest) prev stdin run =
      joined-in_order op both (op first next) rest prev stdin run
      ∙ ap (λ p. after p (in_order rest)) (both first next prev stdin run)
      ∙ in_order_next next rest (run_node first prev stdin run)

module _ {ℓ} {W : Type ℓ} where
  stop_first :
      (stop : Result → Bool) (next : Result → Action W Result) (p : Run W × Outcome Result)
      → after p (λ r. if stop r then pure r else next r)
        ≡ after p (λ r. if not (stop r) then next r else pure r)
  stop_first stop next (run, raised e) = refl
  stop_first stop next (run, returned r) = elim (Bool-cases (stop r)) [
    | inl stopped ↦ rw stopped refl
    | inr on ↦ rw on refl
  ]

  go_first :
      (go : Result → Bool) (next : Result → Action W Result) (p : Run W × Outcome Result)
      → after p (λ r. if not (go r) then pure r else next r)
        ≡ after p (λ r. if go r then next r else pure r)
  go_first go next (run, raised e) = refl
  go_first go next (run, returned r) = elim (Bool-cases (go r)) [
    | inl on ↦ rw on refl
    | inr stopped ↦ rw stopped refl
  ]

  -- A line of any number of parts joined by `|`, by `&&` or by `||` runs them from left to right, each
  -- with the last result as `prev`: a pipe goes on while the parts succeed and hands each result on as
  -- input, `&&` goes on while they succeed and `||` while they fail, both without input. The first result
  -- that does not go on is the line's, and no part after it runs.
  pub eval-in_order :
      (py : Python) (fl : Floats) (json_size : Value → ℕ) (words : Wording)
      (around : Surroundings W) (argument : Parts → Option Result → Action W Value)
      (key_of : Expr → Option Result → Action W Value)
      (invoke : Invocation → Option Result → Option Result → Action W Result) (first : Node)
      (rest : List Node) (prev stdin : Option Result) (run : Run W)
      → let run_node = eval py fl json_size words around argument key_of invoke in
        (run_node (joined pipe first rest) prev stdin run
          ≡ (run_node first prev stdin >>> in_order run_node succeeded as_input rest) run)
        × (run_node (joined and_ first rest) prev stdin run
            ≡ (run_node first prev stdin >>> in_order run_node succeeded no_input rest) run)
        × (run_node (joined or_ first rest) prev stdin run
            ≡ (run_node first prev stdin >>> in_order run_node failed no_input rest) run)
  unfolding eval
  eval-in_order py fl json_size words around argument key_of invoke first rest prev stdin run =
      let run_node = eval py fl json_size words around argument key_of invoke in
      (
        joined-in_order run_node succeeded as_input pipe
            (λ a b p s r. go_first succeeded (λ x. run_node b (some x) (some x)) (run_node a p s r))
            first rest prev stdin run,
        joined-in_order run_node succeeded no_input and_
            (λ a b p s r. go_first succeeded (λ x. run_node b (some x) none) (run_node a p s r))
            first rest prev stdin run,
        joined-in_order run_node failed no_input or_
            (λ a b p s r. stop_first succeeded (λ x. run_node b (some x) none) (run_node a p s r))
            first rest prev stdin run,
      )
