-- ===== src/Prelude/Int.antt =====
-- Python's integers over the native numbers, with `//` and `%` that round down.
use doomtp_bot.Prelude.Tests.{ltb, leb, eqb, eqb_iff, Bool-cases, if◌then◌else◌}
use doomtp_bot.Prelude.Eq.{Comparable}
use Prim.Native.Nat.{ℕ, zero, suc, ◌+◌, ◌-◌, ◌*◌, ◌/◌, ◌%◌, ◌<◌, ◌≤◌}
use mathlib.Core.Path.{◌≡◌, refl}
use mathlib.Core.Logic.{inl, inr, ◌↔◌}
use mathlib.Core.Bool.{Bool, true, false}
use native.Mathlib.Omega.{arith}

-- `negsuc n` stands for -(n + 1).
pub data ℤ : Type 0 where
  pos : ℕ → ℤ
  negsuc : ℕ → ℤ

abbrev pub pos_part : ℤ → ℕ
pos_part (pos n) = n
pos_part (negsuc n) = 0

abbrev pub neg_part : ℤ → ℕ
neg_part (pos n) = 0
neg_part (negsuc n) = suc n

abbrev pub abs : ℤ → ℕ
abs (pos n) = n
abs (negsuc n) = suc n

-- m - n
abbrev pub sub_ℕ : ℕ → ℕ → ℤ
sub_ℕ m n = if leb n m then pos (m - n) else negsuc (n - m - 1)

infixl 65 ◌+ℤ◌ ◌-ℤ◌
infixl 70 ◌*ℤ◌
unfoldable pub ◌+ℤ◌ : ℤ → ℤ → ℤ
a +ℤ b = sub_ℕ (pos_part a + pos_part b) (neg_part a + neg_part b)

unfoldable pub ◌-ℤ◌ : ℤ → ℤ → ℤ
a -ℤ b = sub_ℕ (pos_part a + neg_part b) (neg_part a + pos_part b)

abbrev pub negate : ℤ → ℤ
negate a = sub_ℕ (neg_part a) (pos_part a)

-- The number of size `n` that is negative if told so.
abbrev pub signed : Bool → ℕ → ℤ
signed true n = sub_ℕ 0 n
signed false n = pos n

abbrev pub is_negative : ℤ → Bool
is_negative (pos n) = false
is_negative (negsuc n) = true

abbrev pub differ : Bool → Bool → Bool
differ true true = false
differ true false = true
differ false true = true
differ false false = false

unfoldable pub ◌*ℤ◌ : ℤ → ℤ → ℤ
a *ℤ b = signed (differ (is_negative a) (is_negative b)) (abs a * abs b)

-- a // b and a % b, for b that is not zero: the quotient is rounded down, and the rest has b's sign.
unfoldable pub floor_div : ℤ → ℤ → ℤ
floor_div a b =
    if differ (is_negative a) (is_negative b)
    then signed true (if eqb (abs a % abs b) 0 then abs a / abs b else abs a / abs b + 1)
    else pos (abs a / abs b)

unfoldable pub floor_mod : ℤ → ℤ → ℤ
floor_mod a b =
    let r = abs a % abs b in
    if differ (is_negative a) (is_negative b)
    then (if eqb r 0 then pos 0 else signed (is_negative b) (abs b - r))
    else signed (is_negative b) r

abbrev pub int_lt : ℤ → ℤ → Bool
int_lt a b = ltb (pos_part a + neg_part b) (pos_part b + neg_part a)

abbrev pub int_le : ℤ → ℤ → Bool
int_le a b = leb (pos_part a + neg_part b) (pos_part b + neg_part a)

abbrev pub int_eq : ℤ → ℤ → Bool
int_eq a b = eqb (pos_part a + neg_part b) (pos_part b + neg_part a)

-- The rest is smaller than the divisor.
pub floor_mod-lt : (a b : ℤ) → 0 < abs b → abs (floor_mod a b) < abs b
unfolding floor_mod
floor_mod-lt a (pos b) h = grind arith
floor_mod-lt a (negsuc b) h = grind arith

-- A rest that is negative comes of a negative divisor.
pub floor_mod_sign :
    (a b : ℤ) → 0 < abs b → is_negative (floor_mod a b) ≡ true → is_negative b ≡ true
unfolding floor_mod
floor_mod_sign a (pos b) h s = grind arith
floor_mod_sign a (negsuc b) h s = refl

-- A rest that is not zero is negative where the divisor is.
pub floor_mod_negative :
    (a b : ℤ)
    → 0 < abs b
    → 0 < abs (floor_mod a b)
    → is_negative b ≡ true
    → is_negative (floor_mod a b) ≡ true
unfolding floor_mod
floor_mod_negative a (pos b) h n s = grind arith
floor_mod_negative a (negsuc b) h n s = grind arith

-- A quotient, rounded up too, is at most the dividend.
quotient-le : (a b : ℕ) → 0 < b → a / b ≤ a
quotient-le a b h = grind arith

rounded_quotient-le : (a b : ℕ) → 0 < b → eqb (a % b) 0 ≡ false → a / b + 1 ≤ a
rounded_quotient-le a zero h r = absurd (omega (arith, h))
rounded_quotient-le a (suc b) h r =
    let q = a / suc b in
    let whole : suc b * q + a % suc b ≡ a = grind arith in
    let grows : q ≤ suc b * q = grind arith in grind arith

-- The quotient is no greater than the dividend, in absolute value.
pub floor_div-le : (a b : ℤ) → 0 < abs b → abs (floor_div a b) ≤ abs a
unfolding floor_div
floor_div-le a b h = elim (Bool-cases (eqb (abs a % abs b) 0)) [
  | inl even ↦ ground (arith, quotient-le (abs a) (abs b) h, even)
  | inr odd ↦
      ground (arith, quotient-le (abs a) (abs b) h, rounded_quotient-le (abs a) (abs b) h odd, odd)
]

negative_times_negative : (q b : ℕ) → signed true q *ℤ negsuc b ≡ pos (q * suc b)
unfolding ◌*ℤ◌
negative_times_negative zero b = ground arith
negative_times_negative (suc q) b = ground arith

negative_times_positive : (q b : ℕ) → signed true q *ℤ pos b ≡ signed true (q * b)
unfolding ◌*ℤ◌
negative_times_positive zero b = ground arith
negative_times_positive (suc q) b = ground arith

-- `signed (negative a) q * b + r` where the quotient was rounded down.
rounded_to : (a b : ℕ) → 0 < b → eqb (a % b) 0 ≡ false → (a / b + 1) * b ≡ a + (b - a % b)
rounded_to a b h r = grind arith

-- The division law.
pub floor_div-floor_mod : (a b : ℤ) → 0 < abs b → floor_div a b *ℤ b +ℤ floor_mod a b ≡ a
unfolding floor_div floor_mod ◌+ℤ◌
floor_div-floor_mod (pos a) (pos b) h = unfold ◌*ℤ◌ in grind arith
floor_div-floor_mod (pos a) (negsuc b) h = elim (Bool-cases (eqb (a % suc b) 0)) [
  | inl even ↦ rw even (rw (negative_times_negative (a / suc b) b) (grind arith))
  | inr odd ↦
      rw odd (
        rw (negative_times_negative (a / suc b + 1) b) (ground (arith, rounded_to a (suc b) h odd)))
]
floor_div-floor_mod (negsuc a) (pos b) h = elim (Bool-cases (eqb (suc a % b) 0)) [
  | inl even ↦ rw even (rw (negative_times_positive (suc a / b) b) (grind arith))
  | inr odd ↦
      rw odd (
        rw (negative_times_positive (suc a / b + 1) b) (ground (arith, rounded_to (suc a) b h odd)))
]
floor_div-floor_mod (negsuc a) (negsuc b) h = unfold ◌*ℤ◌ in grind arith

abbrev pub int_beq : ℤ → ℤ → Bool
int_beq (pos m) (pos n) = eqb m n
int_beq (pos m) (negsuc n) = false
int_beq (negsuc m) (pos n) = false
int_beq (negsuc m) (negsuc n) = eqb m n

pub int_beq_iff : (a b : ℤ) → (int_beq a b ≡ true) ↔ (a ≡ b)
int_beq_iff (pos m) (pos n) = ground (arith, eqb_iff m n)
int_beq_iff (pos m) (negsuc n) = ground arith
int_beq_iff (negsuc m) (pos n) = ground arith
int_beq_iff (negsuc m) (negsuc n) = ground (arith, eqb_iff m n)

instance abbrev pub int_comparable : Comparable ℤ
int_comparable = record { same = int_beq; same_iff = int_beq_iff }
