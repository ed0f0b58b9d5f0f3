-- ===== src/Runtime/Result.antt =====
-- runtime/result.py: the result of a command, its exit codes, and what a failed expression raises.
-- Messages are kept where a result carries them; the wording of an expression's error is left out.
pub mod Bounds
use doomtp_bot.Prelude.{
  ℕ, ◌+◌, ◌-◌, String, Bool, true, false, not, Option, none, some, List, [], ◌∷◌, ◌++◌, Text, leb,
  ltb, eqb, any, map, length, take, contains, nat_eq, if◌then◌else◌, ◌≡◌, refl, ◌⊎◌, inl, inr,
}
use doomtp_bot.Runtime.Values.{Value, null}

abbrev pub ok_code : ℕ
ok_code = 0

-- Code
abbrev pub fail_code : ℕ
fail_code = 1

abbrev pub usage_code : ℕ
usage_code = 2

abbrev pub timeout_code : ℕ
timeout_code = 124

abbrev pub max_code : ℕ
max_code = 1023

abbrev pub max_data_bytes : ℕ
max_data_bytes = 4096

abbrev pub max_message_chars : ℕ
max_message_chars = 2000

pub data ErrorCode : Type 0 where
  e_unterminated_quote e_bad_placeholder e_reserved_operator e_unexpected_operator e_missing_operand
        e_unbalanced_group e_bad_name e_dynamic_name e_dynamic_varref e_bad_varref
        e_raw_tail_position e_too_long e_expr_syntax e_unknown_op e_expr_too_deep e_too_many
        e_input_not_accepted e_bad_reference e_cc_cycle e_cc_depth e_missing_value e_data_too_large
        e_type e_div_zero e_overflow e_expr_budget e_subst_depth e_index e_key e_not_a_list
        e_not_a_map e_empty e_not_a_number e_list_full e_quota e_value_too_big e_bad_namespace
        e_bad_var_name e_too_many_names e_http_not_allowed e_http_address e_http_timeout
        e_http_too_big e_http_status e_http_not_json e_http_path e_http_unreachable e_internal :
      ErrorCode

-- The identifier's own exit code.
unfoldable pub number_of : ErrorCode → ℕ
number_of e_unterminated_quote = 200
number_of e_bad_placeholder = 201
number_of e_reserved_operator = 202
number_of e_unexpected_operator = 203
number_of e_missing_operand = 204
number_of e_unbalanced_group = 205
number_of e_bad_name = 206
number_of e_dynamic_name = 207
number_of e_dynamic_varref = 208
number_of e_bad_varref = 209
number_of e_raw_tail_position = 210
number_of e_too_long = 211
number_of e_expr_syntax = 212
number_of e_unknown_op = 213
number_of e_expr_too_deep = 214
number_of e_too_many = 220
number_of e_input_not_accepted = 221
number_of e_bad_reference = 222
number_of e_cc_cycle = 223
number_of e_cc_depth = 224
number_of e_missing_value = 230
number_of e_data_too_large = 231
number_of e_type = 232
number_of e_div_zero = 233
number_of e_overflow = 234
number_of e_expr_budget = 235
number_of e_subst_depth = 236
number_of e_index = 250
number_of e_key = 251
number_of e_not_a_list = 252
number_of e_not_a_map = 253
number_of e_empty = 254
number_of e_not_a_number = 255
number_of e_list_full = 300
number_of e_quota = 301
number_of e_value_too_big = 302
number_of e_bad_namespace = 303
number_of e_bad_var_name = 304
number_of e_too_many_names = 305
number_of e_http_not_allowed = 400
number_of e_http_address = 401
number_of e_http_timeout = 402
number_of e_http_too_big = 403
number_of e_http_status = 404
number_of e_http_not_json = 405
number_of e_http_path = 406
number_of e_http_unreachable = 407
number_of e_internal = 299

-- Each identifier, in the order of the class.
abbrev pub all_errors : List ErrorCode
all_errors =
    e_unterminated_quote ∷ e_bad_placeholder ∷ e_reserved_operator ∷ e_unexpected_operator
    ∷ e_missing_operand ∷ e_unbalanced_group ∷ e_bad_name ∷ e_dynamic_name ∷ e_dynamic_varref
    ∷ e_bad_varref ∷ e_raw_tail_position ∷ e_too_long ∷ e_expr_syntax ∷ e_unknown_op
    ∷ e_expr_too_deep ∷ e_too_many ∷ e_input_not_accepted ∷ e_bad_reference ∷ e_cc_cycle
    ∷ e_cc_depth ∷ e_missing_value ∷ e_data_too_large ∷ e_type ∷ e_div_zero ∷ e_overflow
    ∷ e_expr_budget ∷ e_subst_depth ∷ e_index ∷ e_key ∷ e_not_a_list ∷ e_not_a_map ∷ e_empty
    ∷ e_not_a_number ∷ e_list_full ∷ e_quota ∷ e_value_too_big ∷ e_bad_namespace ∷ e_bad_var_name
    ∷ e_too_many_names ∷ e_http_not_allowed ∷ e_http_address ∷ e_http_timeout ∷ e_http_too_big
    ∷ e_http_status ∷ e_http_not_json ∷ e_http_path ∷ e_http_unreachable ∷ e_internal ∷ []

-- ERROR_CODES
unfoldable pub is_error_code : ℕ → Bool
unfolding number_of
is_error_code code = any (λ e. eqb (number_of e) code) all_errors

pub record Result : Type 0 where
  pub code : ℕ
  pub message : Option Text
  pub payload : Value

-- result.ok
abbrev pub succeeded : Result → Bool
succeeded r = eqb r.code ok_code

-- The message that __post_init__ keeps: at most MAX_MESSAGE_CHARS characters, the last one `…` if cut.
unfoldable pub cut_message : Option Text → Option Text
cut_message none = none
cut_message (some message) =
    if ltb max_message_chars (length message)
    then some (take (max_message_chars - 1) message ++ (8230 ∷ []))
    else some message

-- Result(code, message, data); none is the ValueError of a code out of range
unfoldable pub new_result : ℕ → Option Text → Value → Option Result
new_result code message payload =
    if leb code max_code
    then some (record { code = code; message = cut_message message; payload = payload })
    else none

-- Result.success
unfoldable pub success : Option Text → Value → Result
success message payload = record {
  code = ok_code;
  message = cut_message message;
  payload = payload;
}

-- Result.failure, for a code that is not OK and in range
unfoldable pub failure : ℕ → Option Text → Value → Result
failure code message payload = record {
  code = code;
  message = cut_message message;
  payload = payload;
}

-- error_result, with the identifier in its data
unfoldable pub error_result : ErrorCode → Option Text → Value → Result
error_result error message payload = failure (number_of error) message payload

-- What is raised inside a run: ExprError, MissingValue with the reference, SubstFailed, VariableError
-- with an identifier or with Code.DENIED, UsageError, OnCooldown with the decision's code and info, a
-- handler's own CommandError with its result, a stage's TimeoutError, RunCancelled, and an exception of
-- Python that no handler names. The last is no exception: the model's fuel ran out.
pub data Failure : Type 0 where
  expr_error : ErrorCode → Failure
  missing_value : Text → Failure
  subst_failed : Result → Failure
  variable_error : ErrorCode → Failure
  not_declared : Failure
  usage_error : Text → Failure
  on_cooldown : ℕ → Value → Failure
  command_error : Result → Failure
  timed_out : Failure
  run_cancelled : Failure
  too_deep : Failure
  crashed : Failure

pub data Outcome {ℓ} (A : Type ℓ) : Type ℓ where
  raised : Failure → Outcome A
  returned : A → Outcome A

infixl 5 ◌>>=◌
abbrev pub ◌>>=◌ {ℓ κ} : {A : Type ℓ} {B : Type κ} → Outcome A → (A → Outcome B) → Outcome B
raised e >>= f = raised e
returned a >>= f = f a

-- A step of a computation that returned did return.
pub >>=-returned {ℓ κ} :
    {A : Type ℓ} {B : Type κ} (m : Outcome A) (f : A → Outcome B) (b : B)
    → (m >>= f) ≡ returned b
    → (a : A) × (m ≡ returned a) × (f a ≡ returned b)
>>=-returned (raised e) f b h = absurd (cc h)
>>=-returned (returned a) f b h = (a, refl, h)

pub Outcome-cases {ℓ} :
    {A : Type ℓ} (m : Outcome A) → ((e : Failure) × (m ≡ raised e)) ⊎ ((a : A) × (m ≡ returned a))
Outcome-cases (raised e) = inl (e, refl)
Outcome-cases (returned a) = inr (a, refl)
