-- ===== src/Runtime/Ops/Collections.antt =====
-- runtime/ops.py: indexing, what a list, a map or a text holds, and the time in words.
use doomtp_bot.Prelude.{
  ℕ, suc, ◌/◌, ◌%◌, ◌&&◌, ◌||◌, Option, none, some, List, [], ◌∷◌, ◌++◌, Text, leb, eqb, ◌==◌,
  nat_eq, list_eq, length, take, join, if◌then◌else◌,
}
use doomtp_bot.Prelude.Int.{pos, negsuc}
use doomtp_bot.Runtime.Values.{
  Value, missing, null, boolean, integer, float, text, sequence, mapping, Items, nil, cons, Fields,
  end, field, Python, render, length_of, field_at,
}
use doomtp_bot.Runtime.Result.{Outcome, raised, returned, expr_error, e_type, e_not_a_map}
use doomtp_bot.Runtime.Ops.{Number, whole, real, Floats, as_number, found_or_missing, at_position}
use doomtp_bot.Runtime.Ops.Compare.{number_lt}

module _ (py : Python) (fl : Floats) where
  abbrev at_number : Items → Option Number → Outcome Value
  at_number xs (some (whole n)) = returned (at_position xs n)
  at_number xs (some (real x)) = raised (expr_error e_type)
  at_number xs none = raised (expr_error e_type)

  abbrev key_number : Value → Option Number
  key_number v = as_number py fl v

  -- index
  unfoldable pub index : Value → Value → Outcome Value
  index missing key = returned missing
  index null key = returned missing
  index (mapping fs) key = returned (found_or_missing (field_at (render py key) fs))
  index (sequence xs) key = at_number xs (key_number key)
  index (boolean b) key = raised (expr_error e_type)
  index (integer n) key = raised (expr_error e_type)
  index (float x) key = raised (expr_error e_type)
  index (text t) key = raised (expr_error e_type)

  unfoldable pub count_fields : Fields → ℕ
  count_fields end = 0
  count_fields (field k v fs) = suc (count_fields fs)

  unfoldable pub names_of : Fields → Items
  names_of end = nil
  names_of (field k v fs) = cons (text k) (names_of fs)

  unfoldable pub values_of : Fields → Items
  values_of end = nil
  values_of (field k v fs) = cons v (values_of fs)

  -- length, keys, values
  unfoldable pub length_value : Value → Outcome Value
  length_value (sequence xs) = returned (integer (pos (length_of xs)))
  length_value (mapping fs) = returned (integer (pos (count_fields fs)))
  length_value (text t) = returned (integer (pos (length t)))
  length_value _ = raised (expr_error e_type)

  unfoldable pub keys_value : Value → Outcome Value
  keys_value (mapping fs) = returned (sequence (names_of fs))
  keys_value _ = raised (expr_error e_not_a_map)

  unfoldable pub values_value : Value → Outcome Value
  values_value (mapping fs) = returned (sequence (values_of fs))
  values_value _ = raised (expr_error e_not_a_map)

  -- The loop of `human` over its units.
  unfoldable pub units : ℕ → List (ℕ × ℕ) → List (ℕ × ℕ) → List (ℕ × ℕ)
  units rest parts [] = parts
  units rest parts ((name, size) ∷ more) =
      let next = units (rest % size) (parts ++ ((rest / size, name) ∷ [])) more in
      let skip = units rest parts more in
      if leb size rest || ((name == 115) && eqb (length parts) 0) then next else skip

  abbrev unit_sizes : List (ℕ × ℕ)
  unit_sizes = (100, 86400) ∷ (104, 3600) ∷ (109, 60) ∷ (115, 1) ∷ []

  -- The two largest units of some seconds: how many, and the unit's letter.
  unfoldable pub largest_units : ℕ → List (ℕ × ℕ)
  largest_units seconds = take 2 (units seconds [] unit_sizes)

  abbrev shown_units : List (ℕ × ℕ) → List Text
  shown_units [] = []
  shown_units ((n, name) ∷ more) = (py.show_int (pos n) ++ (name ∷ [])) ∷ shown_units more

  abbrev seconds_of : Number → Option ℕ
  seconds_of (whole (pos n)) = some n
  seconds_of (whole (negsuc n)) = none
  seconds_of (real x) =
      if number_lt py fl (real x) (whole (pos 0)) then none else some (fl.truncated x)

  -- human
  unfoldable pub human : Value → Outcome Value
  human v = elim (as_number py fl v) [
    | none ↦ raised (expr_error e_type)
    | some n ↦ elim (seconds_of n) [
      | none ↦ raised (expr_error e_type)
      | some seconds ↦ returned (text (join (shown_units (largest_units seconds))))
    ]
  ]
