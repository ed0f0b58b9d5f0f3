-- ===== src/Runtime/Ops/Bounds.antt =====
-- What the arithmetic operators return: the bounds of a result, division by zero, and the division law.
use doomtp_bot.Prelude.{
  false, ap, eqb, ◌⊎◌, ◌≤◌, ◌<◌, ◌≡◌, true, ◌&&◌, arith, ltb, Bool-cases, inl, inr, Option-cases,
}
use doomtp_bot.Prelude.Int.{
  ℤ, pos, negsuc, floor_div-le, abs, ◌+ℤ◌, ◌*ℤ◌, floor_div, floor_mod, floor_div-floor_mod,
  floor_mod-lt, is_negative, floor_mod_sign, floor_mod_negative,
}
use doomtp_bot.Runtime.Values.{
  Value, missing, null, boolean, integer, float, text, sequence, mapping, Python, append_items,
}
use doomtp_bot.Runtime.Result.{raised, returned, ◌>>=◌, >>=-returned, expr_error, e_div_zero}
use doomtp_bot.Runtime.Ops.{
  Number, whole, real, BinaryOp, idiv, mod_, Floats, max_int, checked, operate, apply_numbers,
  apply_binary, both_lists, number, is_zero, divides,
}
use mathlib.Core.Path.{subst}

module _ (py : Python) (fl : Floats) where
  -- A list, an integer of at most 18 digits, or a finite float.
  abbrev pub InRange : Value → Type 0
  InRange (integer n) = abs n ≤ max_int
  InRange (float x) = fl.is_finite x ≡ true
  InRange (sequence xs) = Unit
  InRange missing = ⊥
  InRange null = ⊥
  InRange (boolean b) = ⊥
  InRange (text t) = ⊥
  InRange (mapping fs) = ⊥

  checked-InRange : (n : Number) (v : Value) → checked py fl n ≡ returned v → InRange v
  unfolding checked
  checked-InRange (whole n) v h = elim (Bool-cases (ltb max_int (abs n))) [
    | inl large ↦ absurd (ground (arith, large, h))
    | inr small ↦
        let e : integer n ≡ v = ground (arith, small, h) in subst InRange e (ground (arith, small))
  ]
  checked-InRange (real x) v h = elim (Bool-cases (fl.is_finite x)) [
    | inl finite ↦ let e : float x ≡ v = ground (arith, finite, h) in subst InRange e finite
    | inr not_finite ↦ absurd (ground (arith, not_finite, h))
  ]

  apply_numbers-InRange :
      (op : BinaryOp) (a b : Number) (v : Value)
      → apply_numbers py fl op a b ≡ returned v
      → InRange v
  unfolding apply_numbers
  apply_numbers-InRange op a b v h = elim (Bool-cases (divides py fl op && is_zero py fl b)) [
    | inl zero_divisor ↦ absurd (ground (arith, zero_divisor, h))
    | inr fine ↦
        let e : (operate py fl op a b >>= checked py fl) ≡ returned v = ground (arith, fine, h) in
        let (n, made, last) = >>=-returned (operate py fl op a b) (checked py fl) v e in
        checked-InRange n v last
  ]

  -- Whatever the operands, what an arithmetic operator returns is a list, an integer of at most 18
  -- digits, or a finite float.
  pub apply_binary-InRange :
      (op : BinaryOp) (left right v : Value)
      → apply_binary py fl op left right ≡ returned v
      → InRange v
  unfolding apply_binary
  apply_binary-InRange op left right v h = elim (Option-cases (both_lists py fl op left right)) [
    | inr ((xs, ys), lists) ↦
        let e : sequence (append_items xs ys) ≡ v = ground (arith, lists, h) in subst InRange e tt
    | inl single ↦
        let e : (number py fl left >>= λ a. number py fl right >>= λ b. apply_numbers py fl op a b)
            ≡ returned v =
          ground (arith, single, h) in
        let (a, left_is, rest) = >>=-returned (number py fl left) _ v e in
        let (b, right_is, last) = >>=-returned (number py fl right) _ v rest in
        apply_numbers-InRange op a b v last
  ]

  -- The operators that divide raise E_DIV_ZERO exactly at a zero.
  pub apply_numbers-zero :
      (op : BinaryOp) (a b : Number)
      → (divides py fl op && is_zero py fl b) ≡ true
      → apply_numbers py fl op a b ≡ raised (expr_error e_div_zero)
  unfolding apply_numbers
  apply_numbers-zero op a b h = ground (arith, h)

  small-checked : (n : ℤ) → abs n ≤ max_int → checked py fl (whole n) ≡ returned (integer n)
  unfolding checked
  small-checked n h = ground (arith, h)

  not_zero-divides :
      (op : BinaryOp) (b : ℤ) → 0 < abs b → (divides py fl op && is_zero py fl (whole b)) ≡ false
  not_zero-divides op b h = ground (arith, h)

  -- Of two integers of at most 18 digits `//` and `%` return an integer each, unless the divisor is zero.
  quotient_and_rest :
      (a b : ℤ)
      → abs a ≤ max_int
      → abs b ≤ max_int
      → 0 < abs b
      → (apply_numbers py fl idiv (whole a) (whole b) ≡ returned (integer (floor_div a b)))
        × (apply_numbers py fl mod_ (whole a) (whole b) ≡ returned (integer (floor_mod a b)))
  unfolding apply_numbers operate
  quotient_and_rest a b small_a small_b positive =
      let q : abs (floor_div a b) ≤ max_int = omega (arith, floor_div-le a b positive, small_a) in
      let r : abs (floor_mod a b) ≤ max_int = omega (arith, floor_mod-lt a b positive, small_b) in
      (
        rw (not_zero-divides idiv b positive) (small-checked (floor_div a b) q),
        rw (not_zero-divides mod_ b positive) (small-checked (floor_mod a b) r),
      )

  zero-abs : (n : ℤ) → abs n ≡ 0 → n ≡ pos 0
  zero-abs (pos n) h = ap pos h
  zero-abs (negsuc n) h = absurd (omega (arith, h))

  sign_of_rest :
      (a b : ℤ)
      → 0 < abs b
      → (floor_mod a b ≡ pos 0) ⊎ (is_negative (floor_mod a b) ≡ is_negative b)
  sign_of_rest a b positive = elim (Bool-cases (eqb (abs (floor_mod a b)) 0)) [
    | inl none_left ↦ inl (zero-abs (floor_mod a b) (ground (arith, none_left)))
    | inr some_left ↦
        inr
          (ground (arith, some_left, floor_mod_sign a b positive, floor_mod_negative a b positive))
  ]

  -- Of two integers of at most 18 digits, the second of them not zero, `//` and `%` return an integer each:
  -- the quotient times the divisor and the rest make the dividend, the rest is smaller than the divisor in
  -- absolute value, and a rest that is not zero has the divisor's sign, so the quotient is rounded down.
  pub apply_numbers-division :
      (a b : ℤ)
      → abs a ≤ max_int
      → abs b ≤ max_int
      → 0 < abs b
      → (q : ℤ) × (r : ℤ) × (apply_numbers py fl idiv (whole a) (whole b) ≡ returned (integer q))
        × (apply_numbers py fl mod_ (whole a) (whole b) ≡ returned (integer r))
        × (q *ℤ b +ℤ r ≡ a)
        × (abs r < abs b)
        × ((r ≡ pos 0) ⊎ (is_negative r ≡ is_negative b))
  apply_numbers-division a b small_a small_b positive =
      let (quotient, rest) = quotient_and_rest a b small_a small_b positive in
      (
        floor_div a b,
        floor_mod a b,
        quotient,
        rest,
        floor_div-floor_mod a b positive,
        floor_mod-lt a b positive,
        sign_of_rest a b positive,
      )
