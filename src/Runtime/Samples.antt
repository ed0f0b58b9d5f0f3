-- ===== src/Runtime/Samples.antt =====
-- A small Python and a small machine, on which the tests of this folder run.
use doomtp_bot.Prelude.{
  ℕ, ◌+◌, ◌-◌, ◌*◌, Bool, true, false, ◌&&◌, none, some, [], ◌∷◌, Text, leb, all, points,
  if◌then◌else◌,
}
use doomtp_bot.Prelude.Int.{ℤ, pos, negsuc}
use doomtp_bot.Runtime.Values.{Value, missing, null, Python}
use doomtp_bot.Runtime.Result.{success, returned}
use doomtp_bot.Runtime.Ops.{Floats}
use doomtp_bot.Runtime.Variables.{default_limits}
use doomtp_bot.Runtime.Variables.Session.{VariableStore, new_session}
use doomtp_bot.Runtime.Ast.{no_parts, Invocation, invocation, no_args}
use doomtp_bot.Runtime.Execution.{Run, no_scope_args}
use doomtp_bot.Runtime.Evaluate.{Surroundings}
use doomtp_bot.Runtime.Node.{Wording}
use doomtp_bot.Runtime.Executor.{Machine, Resolved, Scope}

abbrev is_ascii : ℕ → Bool
is_ascii c = leb 48 c && leb c 57

abbrev read_digits : ℕ → Text → ℕ
read_digits n [] = n
read_digits n (c ∷ cs) = read_digits (n * 10 + (c - 48)) cs

abbrev show_small : ℤ → Text
show_small (pos n) = (48 + n) ∷ []
show_small (negsuc n) = 45 ∷ (49 + n) ∷ []

abbrev pub small_python : Python
small_python = record {
  is_decimal = is_ascii;
  is_digit = is_ascii;
  show_int = show_small;
  show_float = λ x. [];
  to_json = λ v. points "{}";
  lower = λ t. t;
  read_float = λ t. none;
  read_decimal = λ t. pos (read_digits 0 t);
  read_int = λ t. if all is_ascii t then some (pos (read_digits 0 t)) else none;
  same_value = λ v w. false;
}

abbrev pub no_floats : Floats
no_floats = record {
  apply = λ op a b. none;
  negated = λ x. x;
  is_zero = λ x. false;
  is_finite = λ x. true;
  number_eq = λ a b. false;
  number_lt = λ a b. false;
  number_le = λ a b. false;
  truncated = λ x. x;
}

abbrev pub four_bytes : Value → ℕ
four_bytes v = 4

-- A world that counts what handlers did.
abbrev counting_store : VariableStore ℕ
counting_store = record {
  fetch = λ n key. missing;
  names_in = λ n space. [];
  limits_for = λ n owner. default_limits;
  apply_all = λ ops n. returned n;
}

abbrev pub no_surroundings : Surroundings ℕ
no_surroundings = record {
  variable_store = counting_store;
  bot_field = λ n name path. missing;
  cast = λ n name choices v. none;
  spell = λ e. [];
}

abbrev pub no_words : Wording
no_words = record { told = λ e. none; detail = λ e. null }

-- Every handler adds one; a world of 5 and more is on cooldown.
abbrev pub counting : Machine ℕ
counting = record {
  around = no_surroundings;
  dry_run = false;
  is_cancelled = λ n. false;
  check_cooldown = λ n spec. if leb 5 n then some (128, null) else none;
  claim_cooldown = λ n spec. (n, none);
  convert = λ n p v. some v;
  handle =
      λ spec name values params prev stdin now. (now.0 + 1, now.1, returned (success none null));
  parse = λ v. returned no_parts;
  usage = λ n spec t. t;
  words = no_words;
}

abbrev pub idle : ℕ → ℕ → Run ℕ
idle ops world = record {
  expr_ops = ops;
  subst_depth = 0;
  ids = record { chatter = none; channel = points "c"; publisher = none };
  variables = new_session;
  results = [];
  executed = [];
  world = world;
}

abbrev pub ping : Resolved
ping = record {
  spec = record { name = points "ping"; params = []; side_effects = false };
  custom = none;
  refused = none;
}

abbrev pub ping_call : Invocation
ping_call = invocation (pos 1) (points "ping") no_args

abbrev pub ping_scope : Scope
ping_scope = record { resolved = (pos 1, ping) ∷ []; args = no_scope_args; bodies = [] }
