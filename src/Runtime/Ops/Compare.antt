-- ===== src/Runtime/Ops/Compare.antt =====
-- runtime/ops.py: equality, membership and order of values.
use doomtp_bot.Prelude.{
  Bool, true, false, not, ◌&&◌, ◌||◌, Option, none, some, [], ◌∷◌, Text, ◌==◌, nat_eq, list_eq,
  is_some, if◌then◌else◌,
}
use doomtp_bot.Prelude.Int.{int_lt, int_le, int_eq}
use doomtp_bot.Runtime.Values.{
  Value, text, sequence, mapping, Items, nil, cons, Python, render, field_at,
}
use doomtp_bot.Runtime.Result.{Outcome, raised, returned, ◌>>=◌, expr_error, crashed, e_type}
use doomtp_bot.Runtime.Ops.{
  Number, whole, real, CompareOp, eq, ne, lt, le, gt, ge, in_, not_in, Floats, text_lt, as_number,
}

module _ (py : Python) (fl : Floats) where
  abbrev number_eq : Number → Number → Bool
  number_eq (whole a) (whole b) = int_eq a b
  number_eq (whole a) (real y) = fl.number_eq (whole a) (real y)
  number_eq (real x) b = fl.number_eq (real x) b

  abbrev is_collection : Value → Bool
  is_collection (sequence xs) = true
  is_collection (mapping fs) = true
  is_collection _ = false

  abbrev equal_else : Value → Value → Option Number → Option Number → Bool
  equal_else left right (some a) (some b) = number_eq a b
  equal_else left right (some a) none =
      if is_collection left || is_collection right
      then py.same_value left right
      else render py left == render py right
  equal_else left right none b =
      if is_collection left || is_collection right
      then py.same_value left right
      else render py left == render py right

  -- _equal
  unfoldable pub equal : Value → Value → Bool
  equal left right = equal_else left right (as_number py fl left) (as_number py fl right)

  unfoldable pub in_items : Value → Items → Bool
  in_items item nil = false
  in_items item (cons v xs) = equal item v || in_items item xs

  -- `needle in text`
  unfoldable pub starts_with : Text → Text → Bool
  starts_with [] t = true
  starts_with (c ∷ cs) [] = false
  starts_with (c ∷ cs) (d ∷ t) = (c == d) && starts_with cs t

  unfoldable pub in_text : Text → Text → Bool
  in_text needle [] = starts_with needle []
  in_text needle (c ∷ t) = starts_with needle (c ∷ t) || in_text needle t

  -- contains
  unfoldable pub is_in : Value → Value → Outcome Bool
  is_in item (sequence xs) = returned (in_items item xs)
  is_in item (mapping fs) = returned (is_some (field_at (render py item) fs))
  is_in item (text t) = returned (in_text (render py item) t)
  is_in item _ = raised (expr_error e_type)

  abbrev pub number_lt : Number → Number → Bool
  number_lt (whole a) (whole b) = int_lt a b
  number_lt (whole a) (real y) = fl.number_lt (whole a) (real y)
  number_lt (real x) b = fl.number_lt (real x) b

  abbrev number_le : Number → Number → Bool
  number_le (whole a) (whole b) = int_le a b
  number_le (whole a) (real y) = fl.number_le (whole a) (real y)
  number_le (real x) b = fl.number_le (real x) b

  -- `<`, `<=`, `>` and `>=` of two numbers, and of two texts
  unfoldable pub order_numbers : CompareOp → Number → Number → Outcome Bool
  order_numbers lt a b = returned (number_lt a b)
  order_numbers le a b = returned (number_le a b)
  order_numbers gt a b = returned (number_lt b a)
  order_numbers ge a b = returned (number_le b a)
  order_numbers _ a b = raised crashed

  unfoldable pub order_texts : CompareOp → Text → Text → Outcome Bool
  order_texts lt a b = returned (text_lt a b)
  order_texts le a b = returned (not (text_lt b a))
  order_texts gt a b = returned (text_lt b a)
  order_texts ge a b = returned (not (text_lt a b))
  order_texts _ a b = raised crashed

  abbrev text_order : CompareOp → Value → Value → Outcome Bool
  text_order op left right =
      if is_collection left || is_collection right
      then raised (expr_error e_type)
      else order_texts op (render py left) (render py right)

  abbrev order_else : CompareOp → Value → Value → Option Number → Option Number → Outcome Bool
  order_else op left right (some a) (some b) = order_numbers op a b
  order_else op left right (some a) none = text_order op left right
  order_else op left right none b = text_order op left right

  unfoldable pub order : CompareOp → Value → Value → Outcome Bool
  order op left right = order_else op left right (as_number py fl left) (as_number py fl right)

  -- compare
  unfoldable pub compare_values : CompareOp → Value → Value → Outcome Bool
  compare_values eq left right = returned (equal left right)
  compare_values ne left right = returned (not (equal left right))
  compare_values in_ left right = is_in left right
  compare_values not_in left right = is_in left right >>= λ b. returned (not b)
  compare_values lt left right = order lt left right
  compare_values le left right = order le left right
  compare_values gt left right = order gt left right
  compare_values ge left right = order ge left right
