-- ===== src/Runtime/Variables/Apply.antt =====
-- runtime/variables.py: apply_op and what it stands on. The code changes a deep copy in place; here the
-- changed container is built. Messages are left out.
use doomtp_bot.Prelude.{
  ℕ, suc, ◌-◌, Bool, true, false, not, ◌&&◌, Option, none, some, List, [], ◌∷◌, Text, ltb, leb,
  nat_eq, list_eq, is_some, if◌then◌else◌,
}
use doomtp_bot.Prelude.Int.{ℤ, pos, negsuc}
use doomtp_bot.Runtime.Values.{
  Value, missing, integer, float, sequence, mapping, Items, nil, cons, end, Python, append_items,
  length_of, item_at, set_item, drop_item, field_at, set_field, drop_field,
}
use doomtp_bot.Runtime.Result.{
  Outcome, raised, returned, ◌>>=◌, variable_error, crashed, e_key, e_index, e_not_a_list,
  e_not_a_map, e_empty, e_not_a_number, e_list_full,
}
use doomtp_bot.Runtime.Ops.{Number, whole, real, add, Floats, operate, value_of, found_or_missing}
use doomtp_bot.Runtime.Variables.{
  Limits, default_limits, Step, named, numbered, OpKind, set_to, append_of, incr_by, delete_it,
  pop_at,
}

abbrev pub creates : OpKind → Bool
creates (set_to v) = true
creates (append_of v) = true
creates (incr_by n) = true
creates delete_it = false
creates (pop_at i) = false

abbrev pub deletes : OpKind → Bool
deletes (set_to v) = false
deletes (append_of v) = false
deletes (incr_by n) = false
deletes delete_it = true
deletes (pop_at i) = false

abbrev last_or : Option Step → Step
last_or none = numbered (negsuc 0)
last_or (some i) = i

abbrev number_base : Value → Option Number
number_base missing = some (whole (pos 0))
number_base (integer n) = some (whole n)
number_base (float x) = some (real x)
number_base _ = none

-- value is MISSING
abbrev pub is_absent : Value → Bool
is_absent missing = true
is_absent _ = false

module _ (py : Python) (fl : Floats) where
  -- int(key)
  abbrev read_step : Step → Option ℤ
  read_step (named t) = py.read_int t
  read_step (numbered i) = some i

  -- str(key)
  abbrev pub step_text : Step → Text
  step_text (named t) = t
  step_text (numbered i) = py.show_int i

  -- The place of a position in a list of `n`, where -n <= position < n.
  unfoldable pub place : ℤ → ℕ → Option ℕ
  place (pos i) n = if ltb i n then some i else none
  place (negsuc i) n = if ltb i n then some (n - suc i) else none

  -- _position, as the place that the list is indexed at
  unfoldable pub position : Step → Items → Outcome ℕ
  position step items = elim (read_step step) [
    | none ↦ raised (variable_error e_not_a_map)
    | some i ↦ elim (place i (length_of items)) [
      | none ↦ raised (variable_error e_index)
      | some n ↦ returned n
    ]
  ]

  -- `append`, where there is a value
  unfoldable pub append_leaf : Value → Value → Limits → Outcome Value
  append_leaf missing v limits = returned (sequence (cons v nil))
  append_leaf (sequence xs) v limits =
      if leb limits.list_items (length_of xs)
      then raised (variable_error e_list_full)
      else returned (sequence (append_items xs (cons v nil)))
  append_leaf _ v limits = raised (variable_error e_not_a_list)

  unfoldable pub pop_leaf : Value → Option Step → Outcome Value
  pop_leaf missing i = raised (variable_error e_key)
  pop_leaf (sequence nil) i = raised (variable_error e_empty)
  pop_leaf (sequence (cons v xs)) i =
      position (last_or i) (cons v xs) >>= λ n. returned (sequence (drop_item (cons v xs) n))
  pop_leaf _ i = raised (variable_error e_not_a_list)

  unfoldable pub incr_leaf : Value → Number → Outcome Value
  incr_leaf current by = elim (number_base current) [
    | none ↦ raised (variable_error e_not_a_number)
    | some base ↦ operate py fl add base by >>= λ n. returned (value_of py fl n)
  ]

  -- _apply_leaf
  unfoldable pub apply_leaf : Value → OpKind → Limits → Outcome Value
  apply_leaf current (set_to v) limits = returned v
  apply_leaf current delete_it limits = returned missing
  apply_leaf current (append_of v) limits = append_leaf current v limits
  apply_leaf current (pop_at i) limits = pop_leaf current i
  apply_leaf current (incr_by n) limits = incr_leaf current n

  -- _apply_at, on a path of a first step and the rest
  unfoldable pub apply_at : Value → Step → List Step → OpKind → Limits → Outcome Value
  apply_at (mapping fs) key [] op limits =
      if not (is_some (field_at (step_text key) fs)) && not (creates op)
      then raised (variable_error e_key)
      else if deletes op
      then returned (mapping (drop_field (step_text key) fs))
      else apply_leaf (found_or_missing (field_at (step_text key) fs)) op limits >>= λ v.
          returned (mapping (set_field (step_text key) v fs))
  apply_at (mapping fs) key (next ∷ rest) op limits =
      let inside : Value = elim (field_at (step_text key) fs) [ none ↦ mapping end | some v ↦ v ] in
      let changed = apply_at inside next rest op limits in
      if not (is_some (field_at (step_text key) fs)) && not (creates op)
      then raised (variable_error e_key)
      else (changed >>= λ v. returned (mapping (set_field (step_text key) v fs)))
  apply_at (sequence xs) key [] op limits = position key xs >>= λ n.
      if deletes op
      then returned (sequence (drop_item xs n))
      else apply_leaf (found_or_missing (item_at xs n)) op limits >>= λ v.
          returned (sequence (set_item xs n v))
  apply_at (sequence xs) key (next ∷ rest) op limits = position key xs >>= λ n.
      apply_at (found_or_missing (item_at xs n)) next rest op limits >>= λ v.
      returned (sequence (set_item xs n v))
  apply_at _ key rest op limits = raised (variable_error e_not_a_map)

  abbrev root_of : Value → Value
  root_of missing = mapping end
  root_of v = v

  -- apply_op
  unfoldable pub apply_op : Value → OpKind → List Step → Limits → Outcome Value
  apply_op current op [] limits = apply_leaf current op limits
  apply_op current op (key ∷ rest) limits =
      if is_absent current && not (creates op)
      then raised (variable_error e_key)
      else apply_at (root_of current) key rest op limits

  -- _at
  unfoldable pub walk : Value → List Step → Outcome Value
  walk current [] = returned current
  walk (mapping fs) (key ∷ rest) =
      let inside = found_or_missing (field_at (step_text key) fs) in
      let found = walk inside rest in
      if is_some (field_at (step_text key) fs) then found else raised (variable_error e_key)
  walk (sequence xs) (key ∷ rest) =
      position key xs >>= λ n. walk (found_or_missing (item_at xs n)) rest
  walk missing (key ∷ rest) = raised (variable_error e_key)
  walk _ (key ∷ rest) = raised (variable_error e_not_a_map)

  abbrev popped : Value → Option Step → Outcome Value
  popped (sequence xs) i =
      position (last_or i) xs >>= λ n. returned (found_or_missing (item_at xs n))
  popped _ i = raised crashed

  -- pop_item, of a pop
  unfoldable pub pop_item : Value → Option Step → List Step → Outcome Value
  pop_item current i path = walk current path >>= λ items.
      apply_leaf items (pop_at i) default_limits >>= λ rest. popped items i
