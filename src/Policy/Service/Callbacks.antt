-- ===== src/Policy/Service/Callbacks.antt =====
-- policy/service.py: callbacks and their rate limit (ADR-0006 §3). The clock is in milliseconds; a
-- callback that was never sent passes as with Python's default, since the clock is not negative.
use doomtp_bot.Prelude.{
  ℕ, ◌+◌, ◌-◌, ◌≤◌, String, ◌≡◌, inl, inr, Bool, false, Option, none, some, List, [], ◌∷◌, arith,
  ltb, leb, string_eq, pair_eq, or_default, given, length, keep, if◌then◌else◌, Bool-cases,
}
use Prim.Native.String.{◌++◌ as text_append}
use doomtp_bot.Prelude.Dict
use doomtp_bot.Prelude.Dict.{Dict, get-put_self}
use doomtp_bot.Policy.Roles.{global}
use doomtp_bot.Policy.Service.{PolicyService, ExecContext, Chatter}

abbrev pub rate_limit : ℕ
rate_limit = 30000

abbrev pub callback_prune_at : ℕ
callback_prune_at = 10000

abbrev pub SentKey : Type 0
SentKey = String × (String × (String × String))

abbrev pub scope_of : String → Option String → List String → List String
scope_of prefix none rest = rest
scope_of prefix (some name) rest = text_append prefix name ∷ rest

unfoldable pub scopes : Option String → Option String → List String
scopes command in_module =
    scope_of "command:" (given command) (scope_of "module:" (given in_module) ("channel" ∷ []))

-- The first of these scopes that has a callback which is not empty.
unfoldable pub first_of_scopes : PolicyService → String → String → List String → Option String
first_of_scopes s channel_id kind [] = none
first_of_scopes s channel_id kind (scope ∷ rest) =
    elim (given (Dict.get (channel_id, (scope, kind)) s.snapshot.callbacks)) [
      | none ↦ first_of_scopes s channel_id kind rest
      | some expr ↦ some expr
    ]

abbrev pub else_found : Option String → Option String → Option String
else_found none other = other
else_found (some expr) other = some expr

unfoldable pub found_expr :
    PolicyService → ExecContext → Option String → Option String → String → Option String
found_expr s ctx command in_module kind =
    else_found (first_of_scopes s ctx.channel.id kind (scopes command in_module))
      (first_of_scopes s global kind (scopes command in_module))

abbrev pub user_of : Option Chatter → String
user_of none = ""
user_of (some chatter) = chatter.id

-- `command or ""`
abbrev pub sent_key : ExecContext → Option String → String → SentKey
sent_key ctx command kind = (ctx.channel.id, (user_of ctx.invoker, (or_default command "", kind)))

-- now - sent.get(key, -30.0) < 30.0
abbrev pub too_soon : ℕ → Option ℕ → Bool
too_soon now none = false
too_soon now (some sent) = ltb (now - sent) rate_limit

unfoldable pub mark_sent : Dict SentKey ℕ → ℕ → SentKey → Dict SentKey ℕ
mark_sent d now key =
    Dict.put key now
      (if leb callback_prune_at (length d) then keep (λ e. ltb (now - e.1) rate_limit) d else d)

abbrev pub send_callback :
    PolicyService → ℕ → SentKey → Option String → PolicyService × Option String
send_callback s now key none = (s, none)
send_callback s now key (some expr) =
    if too_soon now (Dict.get key s.callback_sent)
    then (s, none)
    else (record s { callback_sent = mark_sent s.callback_sent now key }, some expr)

unfoldable pub callback_expr :
    PolicyService
    → ℕ
    → ExecContext
    → Option String
    → Option String
    → String
    → PolicyService × Option String
callback_expr s now ctx command in_module kind =
    send_callback s now (sent_key ctx command kind) (found_expr s ctx command in_module kind)

-- The callback that was sent is remembered with its time.
get-mark_sent :
    (d : Dict SentKey ℕ) (now : ℕ) (key : SentKey) → Dict.get key (mark_sent d now key) ≡ some now
unfolding mark_sent
get-mark_sent d now key = get-put_self key now _

send_callback-again :
    (s : PolicyService) (now later : ℕ) (key : SentKey) (found again : Option String)
    (expr : String)
    → (send_callback s now key found).1 ≡ some expr
    → now ≤ later
    → (send_callback (send_callback s now key found).0 later key again).1
      ≡ (if ltb later (now + rate_limit) then none else again)
send_callback-again s now later key none again expr sent le = cc
send_callback-again s now later key (some e) none expr sent le = ground arith
send_callback-again s now later key (some e) (some g) expr sent le =
    elim (Bool-cases (too_soon now (Dict.get key s.callback_sent))) [
      | inl soon ↦ absurd (ground (arith, soon, sent))
      | inr free ↦ rw free (rw get-mark_sent (ground arith))
    ]

-- Once a callback was sent for a chatter, a command and a kind in a channel, the same lookup gives
-- nothing for 30 seconds, and after them what is configured then.
pub callback_expr-again :
    (s : PolicyService) (now later : ℕ) (ctx : ExecContext) (command in_module : Option String)
    (kind expr : String)
    → (callback_expr s now ctx command in_module kind).1 ≡ some expr
    → now ≤ later
    → (callback_expr
        (callback_expr s now ctx command in_module kind).0
        later
        ctx
        command
        in_module
        kind).1
      ≡ (if ltb later (now + rate_limit)
          then none
          else found_expr
              (callback_expr s now ctx command in_module kind).0
              ctx
              command
              in_module
              kind)
unfolding callback_expr
callback_expr-again s now later ctx command in_module kind expr sent le =
    send_callback-again s now later (sent_key ctx command kind)
      (found_expr s ctx command in_module kind) _ expr sent le
