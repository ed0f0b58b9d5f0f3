-- ===== src/Runtime/Result/Bounds.antt =====
-- The bounds of a result.
use doomtp_bot.Prelude.{
  ◌-◌, ◌≤◌, Option, none, some, Text, arith, ltb, length, take, length-append, length-take, ◌∷◌, [],
  Bool-cases, inl, inr,
}
use doomtp_bot.Runtime.Values.{Value}
use doomtp_bot.Runtime.Result.{
  Result, cut_message, max_code, max_message_chars, ErrorCode, number_of, error_result, failure,
}

-- A message, if there is one, is not too long.
abbrev pub IsShort : Option Text → Type 0
IsShort none = Unit
IsShort (some message) = length message ≤ max_message_chars

pub cut_message-IsShort : (message : Option Text) → IsShort (cut_message message)
unfolding cut_message
cut_message-IsShort none = tt
cut_message-IsShort (some message) = elim (Bool-cases (ltb max_message_chars (length message))) [
  | inl long ↦ rw long (
      ground (
        arith,
        length-append (take (max_message_chars - 1) message) (8230 ∷ []),
        length-take (max_message_chars - 1) message,
      ))
  | inr short ↦ rw short (ground (arith, short))
]

-- A result's exit code and its message are in range.
pub record InRange (r : Result) : Type 0 where
  pub code_le : r.code ≤ max_code
  pub message_short : IsShort r.message

pub error_result-InRange :
    (error : ErrorCode) (message : Option Text) (payload : Value)
    → InRange (error_result error message payload)
unfolding error_result failure number_of
error_result-InRange error message payload = record {
  code_le = ground arith;
  message_short = cut_message-IsShort message;
}
