-- ===== src/Policy/Tests.antt =====
-- A small channel, runs of the policy on it, and the theorems at this input.
use doomtp_bot.Prelude.{
  ℕ, ◌≤◌, ◌+◌, ◌*◌, String, ◌≡◌, refl, ◌⊎◌, ◌&&◌, true, false, none, some, List, [], ◌∷◌, arith,
  ltb, string_eq, pair_eq, All, any, contains, sort, insert_sorted, if◌then◌else◌,
}
use doomtp_bot.Prelude.Dict
use doomtp_bot.Prelude.Dict.{Dict}
use doomtp_bot.Policy.Roles.{Role, builtin_ranks, badge_roles, roles_from_badges, global}
use doomtp_bot.Policy.Snapshot.{
  PolicySnapshot, CommandRule, Cooldown, IgnoreEntry, empty_snapshot, role_named, expired,
  custom_roles_for,
}
use doomtp_bot.Policy.Load.{Tables, load_snapshot}
use doomtp_bot.Policy.Tracker.{
  state, commit, remaining, ready, tier_until, user_until, start_tier, start_user,
}
use doomtp_bot.Policy.Tracker.Commit
use doomtp_bot.Policy.Tracker.Commit.{IsValid, same_key}
use doomtp_bot.Policy.Service.{
  PolicyService, CommandSpec, ExecContext, key, rank_of, effective_rank, text_le,
}
use doomtp_bot.Policy.Service.Toggles
use doomtp_bot.Policy.Service.Toggles.{
  is_enabled, module_on, command_toggle, module_toggle, switched_off_by, by_command, by_module,
}
use doomtp_bot.Policy.Service.Permission.{
  permission, required_role, below_floor, floored, holds_allowed, check, gate, gate_available,
  missing, is_permitted, allow, code_denied, code_unknown,
}
use doomtp_bot.Policy.Service.Floor
use doomtp_bot.Policy.Service.Floor.{HoldsRank}
use doomtp_bot.Policy.Service.Cooldowns.{
  Candidate, Bucket, applicable, before, candidates, cooldown_rule, cooldown_rules, set_default,
  bucket, bucket_of, cooldown_key, waiting, check_cooldown, claim_cooldown,
}
use doomtp_bot.Policy.Service.Claims
use doomtp_bot.Policy.Service.Rules
use doomtp_bot.Policy.Service.Chatters.{
  build_chatter, named_roles, add_badge_roles, add_custom_roles, max_rank, role_before, ignored_in,
  is_ignored, ignore_entry, ignored_only_by_self, added_by_self,
}
use doomtp_bot.Policy.Service.Ranks
use doomtp_bot.Policy.Service.Held
use doomtp_bot.Policy.Service.Held.{is_held}
use doomtp_bot.Policy.Service.Ignores
use doomtp_bot.Policy.Service.Ignores.{IsIndexed, is_about, last_about}
use doomtp_bot.Policy.Service.Callbacks
use doomtp_bot.Policy.Service.Callbacks.{
  callback_expr, found_expr, first_of_scopes, scopes, mark_sent, rate_limit,
}

program : Unit {0}
unfolding Dict.get Dict.put builtin_ranks badge_roles roles_from_badges role_named expired
    custom_roles_for load_snapshot state commit remaining ready tier_until user_until start_tier
    start_user key rank_of effective_rank text_le is_enabled module_on switched_off_by permission
    required_role below_floor floored holds_allowed check gate gate_available missing is_permitted
    applicable before candidates cooldown_rule cooldown_rules set_default bucket bucket_of
    cooldown_key waiting check_cooldown claim_cooldown build_chatter named_roles add_badge_roles
    add_custom_roles max_rank role_before ignored_in is_ignored ignore_entry ignored_only_by_self
    callback_expr found_expr first_of_scopes scopes mark_sent sort insert_sorted
program = tt

abbrev rule : CommandRule
rule = record {
  required_role = some "everyone";
  allowed_roles = some ("subscriber" ∷ "moderator" ∷ []);
}

abbrev ten : Cooldown
ten = record { tier_s = 10; user_s = 0 }

abbrev own_entry : IgnoreEntry
own_entry = record {
  user_id = "u";
  user_login = none;
  reason = none;
  added_by = some "u";
  added_at = 1;
}

abbrev snapshot : PolicySnapshot
snapshot = record empty_snapshot {
  module_toggles = (("*", "fun"), false) ∷ [];
  command_rules = (("c", "quote"), rule) ∷ [];
  callbacks = (("c", ("channel", "on_denied")), "say no") ∷ [];
  global_admins = "adm" ∷ [];
}

abbrev service : PolicyService
service = record {
  owners = "own" ∷ [];
  cooldowns = record { tier = []; user = [] };
  snapshot = snapshot;
  callback_sent = [];
}

-- A member of a pack whose floor is `vip`.
abbrev quote : CommandSpec
quote = record {
  name = "quote";
  in_module = "cc";
  required_role = "everyone";
  min_role = some "vip";
  default_cooldowns = ("everyone", ten) ∷ [];
  requires = [];
  policy_key = none;
  toggleable = true;
  fixed_policy = false;
}

abbrev context : List String → ℕ → ExecContext
context roles rank = record {
  channel = record { id = "c"; login = "chan"; capabilities = [] };
  invoker = some (record {
    id = "u";
    login = "ann";
    display = "Ann";
    badges = [];
    roles = roles;
    rank = rank;
  });
  trigger_id = none;
  run_as_rank = none;
}

abbrev vip : ExecContext
vip = context ("vip" ∷ []) 60

abbrev subscriber : ExecContext
subscriber = context ("subscriber" ∷ []) 20

-- The channel's rule asks for less than the floor, and the floor wins.
quote-permission :
    (permission service vip quote ≡ none) × ((check service subscriber quote).code ≡ 126)
unfolding program
quote-permission = (refl, refl)

can_see_bucket :
    bucket service vip (record quote { min_role = none })
    ≡ some (record {
      channel_id = "c";
      key = "quote";
      tier = "everyone";
      user_id = some "u";
      rule = ten;
    })
unfolding program
can_see_bucket = refl

switched_off_by_example :
    (switched_off_by service "c" quote ≡ none → is_enabled service "c" quote ≡ true)
    × (is_enabled service "c" quote ≡ true → switched_off_by service "c" quote ≡ none)
    × (switched_off_by service "c" quote ≡ some by_command
        → (command_toggle service global (key quote) ≡ some false)
          ⊎ (command_toggle service "c" (key quote) ≡ some false))
    × (switched_off_by service "c" quote ≡ some by_module
        → (module_toggle service global "cc" ≡ some false)
          ⊎ (module_toggle service "c" "cc" ≡ some false))
switched_off_by_example = Toggles.switched_off_by_lem service "c" quote

permission-floor_example : (60 ≤ effective_rank vip) ⊎ HoldsRank service vip 60
unfolding program
permission-floor_example = Floor.permission-floor service vip quote "vip" 60 refl refl refl refl

permission-rank_mono_example :
    permission service (record vip { run_as_rank = some 80 }) quote ≡ none
unfolding program
permission-rank_mono_example =
    Floor.permission-rank_mono service vip (record vip { run_as_rank = some 80 }) quote refl refl
      (omega arith) refl

check_lem_example :
    (is_permitted service vip quote ≡ (check service vip quote).allowed)
    × ((check service vip quote).allowed ≡ true
        → (check service vip quote ≡ allow)
          × (is_enabled service "c" quote ≡ true)
          × (missing vip quote ≡ [])
          × (permission service vip quote ≡ none))
    × ((check service vip quote).allowed ≡ false
        → ((check service vip quote).code ≡ code_denied)
          ⊎ ((check service vip quote).code ≡ code_unknown))
check_lem_example = Floor.check_lem service vip quote

abbrev everyone_rule : Candidate
everyone_rule = record { rank = 0; name = "everyone"; rule = ten }

cooldown_rule-highest_example :
    (0 ≤ effective_rank vip)
    × (rank_of service "c" "everyone" ≡ some 0)
    × All (λ c. c.rank ≤ effective_rank vip → c.rank ≤ 0) (applicable service "c" quote)
unfolding program
cooldown_rule-highest_example = Rules.cooldown_rule-highest service vip quote everyone_rule refl

tracker-IsValid : IsValid service.cooldowns
tracker-IsValid = record { tiers = tt; users = tt }

tier_remaining-commit_example :
    (state
      (commit service.cooldowns 5 "c" "quote" "everyone" none ten)
      9
      "c"
      "quote"
      "everyone"
      none).tier_remaining
    ≡ (if ltb 0 10 && same_key ("c", ("quote", "everyone")) ("c", ("quote", "everyone"))
        then remaining (5 + 10 * 1000) 9
        else (state service.cooldowns 9 "c" "quote" "everyone" none).tier_remaining)
tier_remaining-commit_example =
    Commit.tier_remaining-commit service.cooldowns 5 9 "c" "quote" "everyone" none ten "c" "quote"
      "everyone" none tracker-IsValid (omega arith)

claim_cooldown-check_example :
    ((claim_cooldown service 5 vip quote).1 ≡ check_cooldown service 5 vip quote)
    × ((claim_cooldown service 5 vip quote).1.allowed ≡ false
        → ((claim_cooldown service 5 vip quote).0 ≡ service)
          × ((claim_cooldown service 5 vip quote).1.code ≡ 128))
claim_cooldown-check_example = Claims.claim_cooldown-check service 5 vip quote

abbrev quote_bucket : Bucket
quote_bucket = record {
  channel_id = "c";
  key = "quote";
  tier = "everyone";
  user_id = some "u";
  rule = ten;
}

claim_cooldown-excludes_example :
    ((claim_cooldown (claim_cooldown service 5 vip quote).0 9 subscriber quote).0
      ≡ (claim_cooldown service 5 vip quote).0)
    × ((claim_cooldown (claim_cooldown service 5 vip quote).0 9 subscriber quote).1.allowed ≡ false)
unfolding program
claim_cooldown-excludes_example =
    Claims.claim_cooldown-excludes service 5 9 vip subscriber quote quote quote_bucket quote_bucket
      tracker-IsValid refl refl refl (refl, refl, refl) (omega arith) (omega arith)

abbrev regular : Role
regular = record { id = 4; channel_id = "c"; name = "regular"; rank = 30; builtin = false }

-- "fan" is a regular until 9, and was one more.
abbrev club : PolicyService
club = record service {
  snapshot = record snapshot {
    roles_by_id = (4, regular) ∷ (5, record regular { id = 5; name = "old" }) ∷ [];
    memberships =
        (
          "fan",
          record { role_id = 4; expires_at = some 9 }
              ∷ record { role_id = 5; expires_at = some 7 }
              ∷ [],
        )
        ∷ [];
  };
}

fan_roles :
    (build_chatter club 7 "c" "fan" "fan" "" ("founder" ∷ [])).roles
    ≡ "regular" ∷ "subscriber" ∷ "everyone" ∷ []
unfolding program
fan_roles = refl

build_chatter-held_example :
    ((name : String)
      → contains name (build_chatter club 7 "c" "fan" "fan" "" ("founder" ∷ [])).roles
        ≡ is_held club 7 "c" "fan" ("founder" ∷ []) name)
    × ((name : String) × (is_held club 7 "c" "fan" ("founder" ∷ []) name ≡ true)
        × (Dict.get name (named_roles club 7 "c" "fan" ("founder" ∷ []))
            ≡ some (build_chatter club 7 "c" "fan" "fan" "" ("founder" ∷ [])).rank))
    × ((name : String) (r : ℕ)
        → Dict.get name (named_roles club 7 "c" "fan" ("founder" ∷ [])) ≡ some r
        → r ≤ (build_chatter club 7 "c" "fan" "fan" "" ("founder" ∷ [])).rank)
build_chatter-held_example = Held.build_chatter-held club 7 "c" "fan" "fan" "" ("founder" ∷ [])

build_chatter-standing_example :
    (contains "own" service.owners ≡ true
      → 10000 ≤ (build_chatter service 7 "c" "own" "own" "" []).rank)
    × (contains "own" snapshot.global_admins ≡ true
        → 1000 ≤ (build_chatter service 7 "c" "own" "own" "" []).rank)
build_chatter-standing_example = Ranks.build_chatter-standing service 7 "c" "own" "own" "" []

abbrev tables : Tables
tables = record {
  channels = [];
  roles = [];
  role_members = [];
  global_admins = [];
  module_toggles = [];
  command_toggles = [];
  command_rules = [];
  cooldown_rules = [];
  callbacks = [];
  ignore_list =
      record { channel_id = "c"; entry = own_entry }
      ∷ record { channel_id = "d"; entry = record own_entry { user_id = "v" } }
      ∷ [];
}

abbrev loaded : PolicyService
loaded = record service { snapshot = load_snapshot (λ text. []) tables }

loaded-IsIndexed : IsIndexed loaded
loaded-IsIndexed = Ignores.load_snapshot-IsIndexed service (λ text. []) tables

load_snapshot-ignored_example :
    (contains "u" (ignored_in loaded "c") ≡ any (is_about "c" "u") tables.ignore_list)
    × (ignore_entry loaded "c" "u" ≡ last_about "c" "u" tables.ignore_list)
load_snapshot-ignored_example = Ignores.load_snapshot-ignored service (λ text. []) tables "c" "u"

ignored_only_by_self_lem_example :
    (is_ignored loaded "c" "u" ≡ true)
    × ((e : IgnoreEntry) → ignore_entry loaded "c" "u" ≡ some e → added_by_self "u" e ≡ true)
    × ((e : IgnoreEntry) → ignore_entry loaded global "u" ≡ some e → added_by_self "u" e ≡ true)
unfolding program
ignored_only_by_self_lem_example =
    Ignores.ignored_only_by_self_lem loaded "c" "u" loaded-IsIndexed refl

callback_expr-again_example :
    (callback_expr
      (callback_expr service 5 vip none none "on_denied").0
      9
      vip
      none
      none
      "on_denied").1
    ≡ (if ltb 9 (5 + rate_limit)
        then none
        else found_expr
            (callback_expr service 5 vip none none "on_denied").0
            vip
            none
            none
            "on_denied")
unfolding program
callback_expr-again_example =
    Callbacks.callback_expr-again service 5 9 vip none none "on_denied" "say no" refl (omega arith)
