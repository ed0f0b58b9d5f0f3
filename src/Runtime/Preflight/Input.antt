-- ===== src/Runtime/Preflight/Input.antt =====
-- The receivers that preflight finds are all the invocations that the executor hands an input.
use doomtp_bot.Prelude.{
  ℕ, ◌≡◌, refl, ap, ◌∙◌, ◌⊎◌, inl, inr, Bool, true, false, not, Option, none, some, List, [], ◌∷◌,
  ◌++◌, map, All, contains, if◌then◌else◌, arith,
}
use doomtp_bot.Prelude.Int.{ℤ, int_comparable}
use doomtp_bot.Runtime.Values.{Value, null, Python}
use doomtp_bot.Runtime.Result.{Result, Outcome, raised, returned, Failure, succeeded, success}
use doomtp_bot.Runtime.Ops.{Floats, holds}
use doomtp_bot.Runtime.Ast.{
  Node, command, pipe, and_, or_, group, store, if_then, if_else, Invocation, index_in, Expr, Parts,
}
use doomtp_bot.Runtime.Execution.{Run, Action, after, pure}
use doomtp_bot.Runtime.Evaluate.{Surroundings}
use doomtp_bot.Runtime.Node.{Wording, eval, settle, expression_failure, store_result}
use doomtp_bot.Runtime.Preflight.{first_invocations, stdin_receivers}

module _ {ℓ κ} {A : Type ℓ} (P : A → Type κ) where
  All-left : (xs ys : List A) → All P (xs ++ ys) → All P xs
  All-left [] ys h = tt
  All-left (x ∷ xs) ys h = (h.0, All-left xs ys h.1)

  All-right : (xs ys : List A) → All P (xs ++ ys) → All P ys
  All-right [] ys h = h
  All-right (x ∷ xs) ys h = All-right xs ys h.1

-- Each number of a list is one of a set.
abbrev Within : List ℤ → List ℤ → Type 0
Within set = All (λ n. contains n set ≡ true)

Within-wider : (n : ℤ) (set xs : List ℤ) → Within set xs → Within (n ∷ set) xs
Within-wider n set [] h = tt
Within-wider n set (x ∷ xs) h = (ground (arith, h.0), Within-wider n set xs h.1)

Within-self : (xs : List ℤ) → Within xs xs
Within-self [] = tt
Within-self (x ∷ xs) =
    (ground (arith, (int_comparable.same_iff x x).1 refl), Within-wider x xs xs (Within-self xs))

module _ {ℓ κ} {W : Type ℓ} {A : Type κ} where
  after-same :
      (p : Run W × Outcome A) (f g : A → Action W Result)
      → ((a : A) (run : Run W) → f a run ≡ g a run)
      → after p f ≡ after p g
  after-same (run, raised e) f g h = refl
  after-same (run, returned a) f g h = h a run

  settle-same :
      (except : Failure → Option Result) (p : Run W × Outcome A) (f g : A → Action W Result)
      → ((a : A) (run : Run W) → f a run ≡ g a run)
      → settle except f p ≡ settle except g p
  settle-same except (run, raised e) f g h = refl
  settle-same except (run, returned a) f g h = h a run

if-same {ℓ} :
    {W : Type ℓ} (b : Bool) (x x' y y' : Action W Result) (run : Run W)
    → x run ≡ x' run
    → y run ≡ y' run
    → (if b then x else y) run ≡ (if b then x' else y') run
if-same true x x' y y' run p q = p
if-same false x x' y y' run p q = q

-- What the invocations that may run first are handed is nothing, or all of them are in the set.
abbrev MayFeed : List ℤ → Option Result → List Invocation → Type 0
MayFeed set stdin invs = (stdin ≡ none) ⊎ Within set (map index_in invs)

Within-parts :
    (set : List ℤ) (xs ys : List Invocation)
    → Within set (map index_in (xs ++ ys))
    → Within set (map index_in xs) × Within set (map index_in ys)
Within-parts set [] ys h = (tt, h)
Within-parts set (x ∷ xs) ys h =
    let (left, right) = Within-parts set xs ys h.1 in ((h.0, left), right)

MayFeed-parts :
    (set : List ℤ) (stdin : Option Result) (xs ys : List Invocation)
    → MayFeed set stdin (xs ++ ys)
    → MayFeed set stdin xs × MayFeed set stdin ys
MayFeed-parts set stdin xs ys (inl e) = (inl e, inl e)
MayFeed-parts set stdin xs ys (inr h) =
    let (left, right) = Within-parts set xs ys h in (inr left, inr right)

MayFeed-one :
    (set : List ℤ) (stdin : Option Result) (inv : Invocation)
    → MayFeed set stdin (inv ∷ [])
    → (stdin ≡ none) ⊎ (contains (index_in inv) set ≡ true)
MayFeed-one set stdin inv (inl e) = inl e
MayFeed-one set stdin inv (inr h) = inr h.0

module _ {ℓ} {W : Type ℓ} (py : Python) (fl : Floats) (json_size : Value → ℕ) (words : Wording)
    (around : Surroundings W) (argument : Parts → Option Result → Action W Value)
    (key_of : Expr → Option Result → Action W Value)
    (invoke other : Invocation → Option Result → Option Result → Action W Result) (set : List ℤ)
    (agree : (inv : Invocation) (prev stdin : Option Result) (run : Run W)
      → (stdin ≡ none) ⊎ (contains (index_in inv) set ≡ true)
      → invoke inv prev stdin run ≡ other inv prev stdin run) where
  abbrev ev : Node → Option Result → Option Result → Action W Result
  ev = eval py fl json_size words around argument key_of invoke

  abbrev ev_other : Node → Option Result → Option Result → Action W Result
  ev_other = eval py fl json_size words around argument key_of other

  eval-agrees :
      (node : Node) (prev stdin : Option Result) (run : Run W)
      → MayFeed set stdin (first_invocations node)
      → Within set (stdin_receivers node)
      → ev node prev stdin run ≡ ev_other node prev stdin run
  unfolding eval first_invocations stdin_receivers
  eval-agrees (command inv) prev stdin run fed w =
      agree inv prev stdin run (MayFeed-one set stdin inv fed)
  eval-agrees (pipe left right) prev stdin run fed w =
      let firsts =
        All-left (λ n. contains n set ≡ true) (map index_in (first_invocations right)) _ w in
      let rest =
        All-right (λ n. contains n set ≡ true) (map index_in (first_invocations right)) _ w in
      let on_left = All-left (λ n. contains n set ≡ true) (stdin_receivers left) _ rest in
      let on_right = All-right (λ n. contains n set ≡ true) (stdin_receivers left) _ rest in
      ap (λ p. after p (λ r. if not (succeeded r) then pure r else ev right (some r) (some r)))
        (eval-agrees left prev stdin run fed on_left)
      ∙ after-same (ev_other left prev stdin run) _ _ (λ r now.
        if-same (not (succeeded r)) (pure r) (pure r) (ev right (some r) (some r))
          (ev_other right (some r) (some r)) now refl
          (eval-agrees right (some r) (some r) now (inr firsts) on_right))
  eval-agrees (and_ left right) prev stdin run fed w =
      let on_left = All-left (λ n. contains n set ≡ true) (stdin_receivers left) _ w in
      let on_right = All-right (λ n. contains n set ≡ true) (stdin_receivers left) _ w in
      ap (λ p. after p (λ r. if not (succeeded r) then pure r else ev right (some r) none))
        (eval-agrees left prev stdin run fed on_left)
      ∙ after-same (ev_other left prev stdin run) _ _ (λ r now.
        if-same (not (succeeded r)) (pure r) (pure r) (ev right (some r) none)
          (ev_other right (some r) none) now refl
          (eval-agrees right (some r) none now (inl refl) on_right))
  eval-agrees (or_ left right) prev stdin run fed w =
      let on_left = All-left (λ n. contains n set ≡ true) (stdin_receivers left) _ w in
      let on_right = All-right (λ n. contains n set ≡ true) (stdin_receivers left) _ w in
      ap (λ p. after p (λ r. if succeeded r then pure r else ev right (some r) none))
        (eval-agrees left prev stdin run fed on_left)
      ∙ after-same (ev_other left prev stdin run) _ _ (λ r now.
        if-same (succeeded r) (pure r) (pure r) (ev right (some r) none)
          (ev_other right (some r) none) now refl
          (eval-agrees right (some r) none now (inl refl) on_right))
  eval-agrees (group inner) prev stdin run fed w = eval-agrees inner prev stdin run fed w
  eval-agrees (if_then cond then_) prev stdin run fed w =
      settle-same (expression_failure words) (argument cond prev run) _ _ (λ v now.
        if-same (holds py fl v) (ev then_ prev stdin) (ev_other then_ prev stdin)
          (pure (success none null)) (pure (success none null)) now
          (eval-agrees then_ prev stdin now fed w) refl)
  eval-agrees (if_else cond then_ else_) prev stdin run fed w =
      let (fed_then, fed_else) = MayFeed-parts set stdin (first_invocations then_) _ fed in
      let on_then = All-left (λ n. contains n set ≡ true) (stdin_receivers then_) _ w in
      let on_else = All-right (λ n. contains n set ≡ true) (stdin_receivers then_) _ w in
      settle-same (expression_failure words) (argument cond prev run) _ _ (λ v now.
        if-same (holds py fl v) (ev then_ prev stdin) (ev_other then_ prev stdin)
          (ev else_ prev stdin) (ev_other else_ prev stdin) now
          (eval-agrees then_ prev stdin now fed_then on_then)
          (eval-agrees else_ prev stdin now fed_else on_else))
  eval-agrees (store inner target append) prev stdin run fed w =
      ap
        (λ p. after p (λ r.
          if not (succeeded r)
          then pure r
          else store_result py fl json_size words around argument key_of target append r))
        (eval-agrees inner prev stdin run fed w)

-- A line that is run without an input of its own does the same for two ways of running an invocation that
-- differ only where an invocation outside the receivers is handed an input: none of those is ever handed one.
pub eval-receivers {ℓ} :
    {W : Type ℓ} (py : Python) (fl : Floats) (json_size : Value → ℕ) (words : Wording)
    (around : Surroundings W) (argument : Parts → Option Result → Action W Value)
    (key_of : Expr → Option Result → Action W Value)
    (invoke other : Invocation → Option Result → Option Result → Action W Result) (node : Node)
    → ((inv : Invocation) (prev stdin : Option Result) (run : Run W)
        → (stdin ≡ none) ⊎ (contains (index_in inv) (stdin_receivers node) ≡ true)
        → invoke inv prev stdin run ≡ other inv prev stdin run)
    → (prev : Option Result) (run : Run W)
    → eval py fl json_size words around argument key_of invoke node prev none run
      ≡ eval py fl json_size words around argument key_of other node prev none run
eval-receivers py fl json_size words around argument key_of invoke other node agree prev run =
    eval-agrees py fl json_size words around argument key_of invoke other (stdin_receivers node)
      agree node prev none run (inl refl) (Within-self (stdin_receivers node))
