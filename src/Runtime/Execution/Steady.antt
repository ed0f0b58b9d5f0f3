-- ===== src/Runtime/Execution/Steady.antt =====
-- Steps that put back the depth of `{!…}` and the ids of the run, and never give budget back.
use doomtp_bot.Prelude.{
  ◌+◌, ◌≤◌, ◌≡◌, refl, ◌∙◌, Bool, true, false, ltb, arith, if◌then◌else◌, Bool-cases, inl, inr,
}
use doomtp_bot.Runtime.Result.{Outcome, raised, returned, Failure}
use doomtp_bot.Runtime.Execution.{
  Run, Action, after, ◌>>>◌, pure, fail, lift, counted, max_expr_ops,
}

module _ {ℓ} {W : Type ℓ} where
  abbrev pub Kept : Run W → Run W → Type 0
  Kept a b = (b.subst_depth ≡ a.subst_depth) × (b.ids ≡ a.ids) × (a.expr_ops ≤ b.expr_ops)

  pub Kept-refl : (a : Run W) → Kept a a
  Kept-refl a = (refl, refl, omega arith)

  pub Kept-trans : (a b c : Run W) → Kept a b → Kept b c → Kept a c
  Kept-trans a b c p q = (q.0 ∙ p.0, q.1 ∙ p.1, omega (arith, p.2, q.2))

module _ {ℓ κ} {W : Type ℓ} {A : Type κ} where
  pub record IsSteady (m : Action W A) : Type ℓ where
    pub kept : (run : Run W) → Kept run (m run).0

  pub pure-IsSteady : (a : A) → IsSteady (pure a)
  pure-IsSteady a = record { kept = λ run. Kept-refl run }

  pub lift-IsSteady : (o : Outcome A) → IsSteady (lift o)
  lift-IsSteady o = record { kept = λ run. Kept-refl run }

  pub if-IsSteady :
      (b : Bool) {m n : Action W A} → IsSteady m → IsSteady n → IsSteady (if b then m else n)
  if-IsSteady true p q = p
  if-IsSteady false p q = q

  pub fail-IsSteady : (e : Failure) → IsSteady (fail e)
  fail-IsSteady e = record { kept = λ run. Kept-refl run }

  counted-Kept : {m : Action W A} → IsSteady m → (run : Run W) → Kept run (counted m run).0
  unfolding counted
  counted-Kept {m} p run = elim (Bool-cases (ltb max_expr_ops (run.expr_ops + 1))) [
    | inl spent ↦ rw spent (refl, refl, omega arith)
    | inr left ↦
        let kept = p.kept (record run { expr_ops = run.expr_ops + 1 }) in
        rw left (kept.0, kept.1, omega (arith, kept.2))
  ]

  pub counted-IsSteady : {m : Action W A} → IsSteady m → IsSteady (counted m)
  counted-IsSteady p = record { kept = counted-Kept p }

module _ {ℓ κ μ} {W : Type ℓ} {A : Type κ} {B : Type μ} where
  pub after-Kept :
      (run : Run W) (p : Run W × Outcome A) (f : A → Action W B)
      → Kept run p.0
      → ((a : A) → IsSteady (f a))
      → Kept run (after p f).0
  after-Kept run (ended, raised e) f k s = k
  after-Kept run (ended, returned a) f k s = Kept-trans run ended (f a ended).0 k ((s a).kept ended)

  pub then-IsSteady :
      {m : Action W A} {f : A → Action W B}
      → IsSteady m
      → ((a : A) → IsSteady (f a))
      → IsSteady (m >>> f)
  then-IsSteady {m} {f} p s = record { kept = λ run. after-Kept run (m run) f (p.kept run) s }
