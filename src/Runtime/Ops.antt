-- ===== src/Runtime/Ops.antt =====
-- runtime/ops.py: the operators of expressions (ADR-0018). Integers are exact. What an operator does
-- where a float takes part is a field of `Floats`, and none there is Python's OverflowError.
pub mod Bounds
pub mod Positions
pub mod Compare
pub mod Collections
use doomtp_bot.Prelude.{
  ℕ, zero, suc, ◌+◌, ◌-◌, ◌*◌, ◌/◌, ◌%◌, ◌^◌, String, Bool, true, false, not, ◌&&◌, ◌||◌, Option,
  none, some, List, [], ◌∷◌, ◌++◌, Text, leb, ltb, eqb, ◌==◌, nat_eq, list_eq, list_beq, all, any,
  length, take, join, points, strip, contains, is_some, if◌then◌else◌, or_default,
}
use doomtp_bot.Prelude.Int.{
  ℤ, pos, negsuc, abs, negate, is_negative, int_lt, int_le, int_eq, ◌+ℤ◌, ◌-ℤ◌, ◌*ℤ◌, floor_div,
  floor_mod,
}
use doomtp_bot.Runtime.Values.{
  Value, missing, null, boolean, integer, float, text, sequence, mapping, Items, nil, cons, Fields,
  end, field, Python, render, append_items, length_of, item_at, field_at,
}
use doomtp_bot.Runtime.Result.{
  Outcome, raised, returned, ◌>>=◌, expr_error, crashed, ErrorCode, e_type, e_overflow, e_div_zero,
  e_not_a_map,
}

-- int | float
pub data Number : Type 0 where
  whole : ℤ → Number
  real : ℕ → Number

pub data BinaryOp : Type 0 where
  add sub mul div idiv mod_ : BinaryOp

pub data CompareOp : Type 0 where
  eq ne lt le gt ge in_ not_in : CompareOp

pub record Floats : Type 0 where
  pub apply : BinaryOp → Number → Number → Option ℕ
  pub negated : ℕ → ℕ
  pub is_zero : ℕ → Bool
  pub is_finite : ℕ → Bool
  pub number_eq : Number → Number → Bool
  pub number_lt : Number → Number → Bool
  pub number_le : Number → Number → Bool
  -- int(x), of a float that is not negative
  pub truncated : ℕ → ℕ

-- MAX_INT
abbrev pub max_int : ℕ
max_int = 10 ^ 18 - 1

-- Python's `a < b` and `a <= b` on texts
unfoldable pub text_lt : Text → Text → Bool
text_lt [] [] = false
text_lt [] (d ∷ t) = true
text_lt (c ∷ s) [] = false
text_lt (c ∷ s) (d ∷ t) = let rest = text_lt s t in if c == d then rest else ltb c d

abbrev pub found_or_missing : Option Value → Value
found_or_missing none = missing
found_or_missing (some v) = v

-- `target[position]`, where `-len <= position < len`
unfoldable pub at_position : Items → ℤ → Value
at_position xs (pos i) = if ltb i (length_of xs) then found_or_missing (item_at xs i) else missing
at_position xs (negsuc i) =
    if ltb i (length_of xs) then found_or_missing (item_at xs (length_of xs - suc i)) else missing

module _ (py : Python) (fl : Floats) where
  abbrev unsigned : Text → Text
  unsigned [] = []
  unsigned (c ∷ cs) = if (c == 43) || (c == 45) then cs else c ∷ cs

  -- _INT_TEXT
  unfoldable pub is_int_text : Text → Bool
  is_int_text t =
      leb 1 (length (unsigned t)) && leb (length (unsigned t)) 18 && all py.is_decimal (unsigned t)

  abbrev read_number : Text → Option Number
  read_number t =
      if is_int_text t
      then some (whole (py.read_decimal t))
      else elim (py.read_float t) [ none ↦ none | some x ↦ some (real x) ]

  unfoldable pub as_number : Value → Option Number
  as_number (integer n) = some (whole n)
  as_number (float x) = some (real x)
  as_number (text t) = read_number (strip t)
  as_number (boolean b) = none
  as_number missing = none
  as_number null = none
  as_number (sequence xs) = none
  as_number (mapping fs) = none

  abbrev pub value_of : Number → Value
  value_of (whole n) = integer n
  value_of (real x) = float x

  unfoldable pub literal : Text → Value
  literal t =
      let lowered = py.lower (strip t) in
      elim (as_number (text t)) [
        | some n ↦ value_of n
        | none ↦
            if lowered == points "true"
            then boolean true
            else if lowered == points "false"
            then boolean false
            else text t
      ]

  unfoldable pub truthy : Value → Bool
  truthy missing = false
  truthy null = false
  truthy (boolean b) = b
  truthy (integer n) = not (eqb (abs n) 0)
  truthy (float x) = not (fl.is_zero x)
  truthy (text []) = false
  truthy (text (c ∷ cs)) = true
  truthy (sequence nil) = false
  truthy (sequence (cons v xs)) = true
  truthy (mapping end) = false
  truthy (mapping (field k v fs)) = true

  abbrev read_text : Value → Value
  read_text (text t) = literal t
  read_text missing = missing
  read_text null = null
  read_text (boolean b) = boolean b
  read_text (integer n) = integer n
  read_text (float x) = float x
  read_text (sequence xs) = sequence xs
  read_text (mapping fs) = mapping fs

  unfoldable pub holds : Value → Bool
  holds v = truthy (read_text v)

  -- number
  unfoldable pub number : Value → Outcome Number
  number v = elim (as_number v) [ none ↦ raised (expr_error e_type) | some n ↦ returned n ]

  unfoldable pub checked : Number → Outcome Value
  checked (whole n) =
      if ltb max_int (abs n) then raised (expr_error e_overflow) else returned (integer n)
  checked (real x) = if fl.is_finite x then returned (float x) else raised (expr_error e_overflow)

  abbrev is_zero : Number → Bool
  is_zero (whole n) = eqb (abs n) 0
  is_zero (real x) = fl.is_zero x

  abbrev divides : BinaryOp → Bool
  divides add = false
  divides sub = false
  divides mul = false
  divides div = true
  divides idiv = true
  divides mod_ = true

  abbrev through_float : BinaryOp → Number → Number → Outcome Number
  through_float op a b = elim (fl.apply op a b) [
    | none ↦ raised crashed
    | some x ↦ returned (real x)
  ]

  -- `a op b`, for a divisor that is not zero
  unfoldable pub operate : BinaryOp → Number → Number → Outcome Number
  operate add (whole a) (whole b) = returned (whole (a +ℤ b))
  operate sub (whole a) (whole b) = returned (whole (a -ℤ b))
  operate mul (whole a) (whole b) = returned (whole (a *ℤ b))
  operate div (whole a) (whole b) = through_float div (whole a) (whole b)
  operate idiv (whole a) (whole b) = returned (whole (floor_div a b))
  operate mod_ (whole a) (whole b) = returned (whole (floor_mod a b))
  operate op (whole a) (real y) = through_float op (whole a) (real y)
  operate op (real x) b = through_float op (real x) b

  unfoldable pub apply_numbers : BinaryOp → Number → Number → Outcome Value
  apply_numbers op a b =
      if divides op && is_zero b
      then raised (expr_error e_div_zero)
      else (operate op a b >>= checked)

  abbrev both_lists : BinaryOp → Value → Value → Option (Items × Items)
  both_lists add (sequence xs) (sequence ys) = some (xs, ys)
  both_lists op left right = none

  unfoldable pub apply_binary : BinaryOp → Value → Value → Outcome Value
  apply_binary op left right = elim (both_lists op left right) [
    | some (xs, ys) ↦ returned (sequence (append_items xs ys))
    | none ↦ number left >>= λ a. number right >>= λ b. apply_numbers op a b
  ]

  abbrev negative : Number → Number
  negative (whole n) = whole (negate n)
  negative (real x) = real (fl.negated x)

  -- apply_unary, of `not` and of `-`
  unfoldable pub apply_not : Value → Value
  apply_not v = boolean (not (truthy v))

  unfoldable pub apply_minus : Value → Outcome Value
  apply_minus v = number v >>= λ n. checked (negative n)
