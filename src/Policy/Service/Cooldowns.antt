-- ===== src/Policy/Service/Cooldowns.antt =====
-- policy/service.py: the cooldown rules, the check and the claim (ADR-0006 §2).
use doomtp_bot.Prelude.{
  ℕ, String, Bool, false, ◌&&◌, ◌||◌, Option, none, some, List, [], ◌∷◌, leb, ltb, eqb, string_eq,
  pair_eq, or_default, given, sort, find, is_some, if◌then◌else◌,
}
use Prim.Native.String.{◌++◌ as text_append}
use doomtp_bot.Prelude.Dict
use doomtp_bot.Prelude.Dict.{Dict}
use doomtp_bot.Policy.Roles.{global}
use doomtp_bot.Policy.Snapshot.{Cooldown}
use doomtp_bot.Policy.Tracker.{CooldownState, ready, state, commit}
use doomtp_bot.Policy.Service.{
  PolicyService, CommandSpec, Chatter, ExecContext, key, rank_of, effective_rank, text_le,
}
use doomtp_bot.Policy.Service.Permission.{Decision, allow, code_cooldown, cooldown}

-- merged.update(more)
abbrev pub update_rules : Dict String Cooldown → Dict String Cooldown → Dict String Cooldown
update_rules merged [] = merged
update_rules merged ((name, rule) ∷ more) = update_rules (Dict.put name rule merged) more

abbrev pub rules_in : PolicyService → String → CommandSpec → Dict String Cooldown
rules_in s scope spec = or_default (Dict.get (scope, key spec) s.snapshot.cooldown_rules) []

unfoldable pub cooldown_rules : PolicyService → String → CommandSpec → Dict String Cooldown
cooldown_rules s channel_id spec =
    update_rules (update_rules spec.default_cooldowns (rules_in s global spec))
      (rules_in s channel_id spec)

-- merged.setdefault(name, rule)
unfoldable pub set_default : String → Cooldown → Dict String Cooldown → Dict String Cooldown
set_default name rule merged =
    if is_some (Dict.get name merged) then merged else Dict.put name rule merged

pub record Candidate : Type 0 where
  pub rank : ℕ
  pub name : String
  pub rule : Cooldown

abbrev pub add_candidate : Option ℕ → String → Cooldown → List Candidate → List Candidate
add_candidate none name rule rest = rest
add_candidate (some r) name rule rest = record { rank = r; name = name; rule = rule } ∷ rest

unfoldable pub candidates : PolicyService → String → Dict String Cooldown → List Candidate
candidates s channel_id [] = []
candidates s channel_id ((name, rule) ∷ merged) =
    add_candidate (rank_of s channel_id name) name rule (candidates s channel_id merged)

-- key=lambda c: (-c[0], c[1])
unfoldable pub before : Candidate → Candidate → Bool
before a b = ltb b.rank a.rank || (eqb a.rank b.rank && text_le a.name b.name)

abbrev pub no_cooldown : Cooldown
no_cooldown = record { tier_s = 0; user_s = 0 }

-- The rules that apply in a channel, as the roles that have a rank carry them.
unfoldable pub applicable : PolicyService → String → CommandSpec → List Candidate
applicable s channel_id spec =
    candidates s channel_id (set_default "moderator" no_cooldown (cooldown_rules s channel_id spec))

unfoldable pub cooldown_rule : PolicyService → ExecContext → CommandSpec → Option Candidate
cooldown_rule s ctx spec =
    if spec.fixed_policy
    then none
    else find (λ c. leb c.rank (effective_rank ctx))
        (sort before (applicable s ctx.channel.id spec))

-- f"{spec.key}@{ctx.trigger_id}" if ctx.trigger_id else spec.key
unfoldable pub cooldown_key : ExecContext → CommandSpec → String
cooldown_key ctx spec = elim (given ctx.trigger_id) [
  | none ↦ key spec
  | some id ↦ text_append (key spec) (text_append "@" id)
]

-- _Bucket
pub record Bucket : Type 0 where
  pub channel_id : String
  pub key : String
  pub tier : String
  pub user_id : Option String
  pub rule : Cooldown

abbrev pub invoker_id : Option Chatter → Option String
invoker_id none = none
invoker_id (some chatter) = some chatter.id

unfoldable pub bucket_of : ExecContext → CommandSpec → Option Candidate → Option Bucket
bucket_of ctx spec none = none
bucket_of ctx spec (some found) =
    if eqb found.rule.tier_s 0 && eqb found.rule.user_s 0
    then none
    else some (record {
      channel_id = ctx.channel.id;
      key = cooldown_key ctx spec;
      tier = found.name;
      user_id = invoker_id ctx.invoker;
      rule = found.rule;
    })

-- _bucket
unfoldable pub bucket : PolicyService → ExecContext → CommandSpec → Option Bucket
bucket s ctx spec = bucket_of ctx spec (cooldown_rule s ctx spec)

abbrev pub bucket_state : PolicyService → ℕ → Bucket → CooldownState
bucket_state s now b = state s.cooldowns now b.channel_id b.key b.tier b.user_id

-- _waiting
unfoldable pub waiting : PolicyService → ℕ → CommandSpec → Option Bucket → Option Decision
waiting s now spec none = none
waiting s now spec (some b) =
    if ready (bucket_state s now b)
    then none
    else some (record {
      allowed = false;
      code = code_cooldown;
      reason =
          cooldown spec.name b.tier (bucket_state s now b).tier_remaining
            (bucket_state s now b).user_remaining;
    })

unfoldable pub check_cooldown : PolicyService → ℕ → ExecContext → CommandSpec → Decision
check_cooldown s now ctx spec = or_default (waiting s now spec (bucket s ctx spec)) allow

abbrev pub start_bucket : PolicyService → ℕ → Option Bucket → PolicyService
start_bucket s now none = s
start_bucket s now (some b) = record s {
  cooldowns = commit s.cooldowns now b.channel_id b.key b.tier b.user_id b.rule;
}

-- `if refused is not None: return refused`, or the buckets start.
abbrev pub settle : PolicyService → ℕ → Option Bucket → Option Decision → PolicyService × Decision
settle s now b (some refused) = (s, refused)
settle s now b none = (start_bucket s now b, allow)

unfoldable pub claim_cooldown :
    PolicyService → ℕ → ExecContext → CommandSpec → PolicyService × Decision
claim_cooldown s now ctx spec = let b = bucket s ctx spec in settle s now b (waiting s now spec b)
