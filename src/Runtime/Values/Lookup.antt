-- ===== src/Runtime/Values/Lookup.antt =====
-- runtime/values.py: looking into a value and into a result by a path of names.
use doomtp_bot.Prelude.{
  Bool, true, false, Option, none, some, List, [], ◌∷◌, Text, all, points, ◌==◌, nat_eq, list_eq,
  if◌then◌else◌,
}
use doomtp_bot.Prelude.Int.{ℤ, pos, negsuc}
use doomtp_bot.Runtime.Values.{
  Value, missing, null, integer, text, sequence, mapping, Items, Python, item_at, field_at,
}
use doomtp_bot.Runtime.Result.{Result, Outcome, raised, returned, ◌>>=◌, crashed}

abbrev pub message_value : Option Text → Value
message_value none = missing
message_value (some message) = text message

module _ (py : Python) where
  -- segment.isdigit()
  abbrev pub is_digits : Text → Bool
  is_digits [] = false
  is_digits (c ∷ cs) = all py.is_digit (c ∷ cs)

  abbrev item_of : Items → Option ℤ → Outcome (Option Value)
  item_of xs none = raised crashed
  item_of xs (some (pos i)) = returned (item_at xs i)
  item_of xs (some (negsuc i)) = returned none

  -- One segment of a path; none is a mismatch.
  unfoldable pub down : Value → Text → Outcome (Option Value)
  down (mapping fs) segment = returned (field_at segment fs)
  down (sequence xs) segment =
      if is_digits segment then item_of xs (py.read_int segment) else returned none
  down _ segment = returned none

  -- descend
  unfoldable pub descend : Value → List Text → Outcome Value
  descend value [] = returned value
  descend value (segment ∷ path) = down value segment >>= λ found. elim found [
    | none ↦ returned missing
    | some v ↦ descend v path
  ]

  abbrev is_scalar : Value → Bool
  is_scalar null = false
  is_scalar (sequence xs) = false
  is_scalar (mapping fs) = false
  is_scalar _ = true

  -- result_value
  unfoldable pub result_value : Result → List Text → Outcome Value
  result_value r [] = returned (if is_scalar r.payload then r.payload else message_value r.message)
  result_value r (head ∷ rest) =
      if head == points "code"
      then returned (elim rest [ [] ↦ integer (pos r.code) | _ ∷ _ ↦ missing ])
      else if head == points "message"
      then returned (elim rest [ [] ↦ message_value r.message | _ ∷ _ ↦ missing ])
      else if head == points "data"
      then descend r.payload rest
      else descend r.payload (head ∷ rest)
