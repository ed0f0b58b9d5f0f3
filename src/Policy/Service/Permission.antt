-- ===== src/Policy/Service/Permission.antt =====
-- policy/service.py: permission (ADR-0006 §1, ADR-0033), capabilities, and the preflight gate.
use doomtp_bot.Prelude.{
  ℕ, String, Bool, true, false, not, Option, none, some, List, [], ◌∷◌, leb, ltb, string_eq,
  pair_eq, or_default, or_else, given, contains, meets, keep, sort, if◌then◌else◌, is_some,
}
use doomtp_bot.Prelude.Dict
use doomtp_bot.Policy.Roles.{global}
use doomtp_bot.Policy.Snapshot.{CommandRule}
use doomtp_bot.Policy.Service.{
  PolicyService, CommandSpec, Chatter, ExecContext, key, rank_of, effective_rank, text_le,
}
use doomtp_bot.Policy.Service.Toggles.{is_enabled}

-- `reason` and `info` of a Decision: the data says which reason it was.
pub data Reason : Type 0 where
  nothing : Reason
  disabled : (command : String) → Reason
  unavailable : (command : String) (missing : List String) → Reason
  requires : (required command : String) (rank : ℕ) → Reason
  cooldown : (command tier : String) (tier_remaining user_remaining : ℕ) → Reason

-- runtime/policy.py: Decision, with the exit codes of runtime/result.py
pub record Decision : Type 0 where
  pub allowed : Bool
  pub code : ℕ
  pub reason : Reason

abbrev pub allow : Decision
allow = record { allowed = true; code = 0; reason = nothing }

abbrev pub code_denied : ℕ
code_denied = 126

abbrev pub code_unknown : ℕ
code_unknown = 127

abbrev pub code_cooldown : ℕ
code_cooldown = 128

-- `floor is not None and (rank is None or rank < floor)`
abbrev pub lower : Option ℕ → Option ℕ → Bool
lower none rank = false
lower (some floor) none = true
lower (some floor) (some rank) = ltb rank floor

unfoldable pub below_floor : PolicyService → String → CommandSpec → String → Bool
below_floor s channel_id spec role = elim spec.min_role [
  | none ↦ false
  | some floor_role ↦ lower (rank_of s channel_id floor_role) (rank_of s channel_id role)
]

abbrev pub rule_of : PolicyService → String → CommandSpec → Option CommandRule
rule_of s channel_id spec =
    or_else (Dict.get (channel_id, key spec) s.snapshot.command_rules)
      (Dict.get (global, key spec) s.snapshot.command_rules)

abbrev pub rule_required : Option CommandRule → String → String
rule_required none default = default
rule_required (some rule) default = or_default (given rule.required_role) default

abbrev pub rule_allowed : Option CommandRule → Option (List String)
rule_allowed none = none
rule_allowed (some rule) = rule.allowed_roles

-- `tuple(…) or None`
abbrev pub not_empty : List String → Option (List String)
not_empty [] = none
not_empty (x ∷ xs) = some (x ∷ xs)

-- `if allowed:` keeps the roles that are not below the floor.
unfoldable pub floored :
    PolicyService → String → CommandSpec → Option (List String) → Option (List String)
floored s channel_id spec none = none
floored s channel_id spec (some []) = some []
floored s channel_id spec (some (r ∷ rs)) =
    not_empty (keep (λ x. not (below_floor s channel_id spec x)) (r ∷ rs))

unfoldable pub required_role : PolicyService → String → CommandSpec → String × Option (List String)
required_role s channel_id spec =
    let rule = rule_of s channel_id spec in
    let required = rule_required rule spec.required_role in
    elim spec.min_role [
      | none ↦ (required, rule_allowed rule)
      | some floor_role ↦ (
        (if below_floor s channel_id spec required then floor_role else required),
        floored s channel_id spec (rule_allowed rule),
      )
    ]

-- `allowed and ctx.invoker is not None and set(allowed) & set(ctx.invoker.roles)`
unfoldable pub holds_allowed : Option (List String) → Option Chatter → Bool
holds_allowed none invoker = false
holds_allowed (some allowed) none = false
holds_allowed (some allowed) (some chatter) = meets allowed chatter.roles

-- `required_rank is not None and rank >= required_rank`
abbrev pub reaches : ℕ → Option ℕ → Bool
reaches rank none = false
reaches rank (some required) = leb required rank

unfoldable pub permission : PolicyService → ExecContext → CommandSpec → Option Decision
permission s ctx spec =
    let channel_id = ctx.channel.id in
    let rank = effective_rank ctx in
    let (required, allowed) = required_role s channel_id spec in
    if spec.fixed_policy
    then none
    else if holds_allowed allowed ctx.invoker
    then none
    else if reaches rank (rank_of s channel_id required)
    then none
    else some
        (record { allowed = false; code = code_denied; reason = requires required spec.name rank })

-- set(spec.requires) - set(ctx.channel.capabilities)
unfoldable pub missing : ExecContext → CommandSpec → List String
missing ctx spec = keep (λ c. not (contains c ctx.channel.capabilities)) spec.requires

abbrev pub unavailable_decision : CommandSpec → List String → Decision
unavailable_decision spec lacks = record {
  allowed = false;
  code = code_unknown;
  reason = unavailable spec.name (sort text_le lacks);
}

unfoldable pub gate_available :
    PolicyService → ExecContext → CommandSpec → List String → Option Decision
gate_available s ctx spec [] = permission s ctx spec
gate_available s ctx spec (c ∷ cs) = some (unavailable_decision spec (c ∷ cs))

-- _gate
unfoldable pub gate : PolicyService → ExecContext → CommandSpec → Option Decision
gate s ctx spec =
    if not (is_enabled s ctx.channel.id spec)
    then some (record { allowed = false; code = code_unknown; reason = disabled spec.name })
    else gate_available s ctx spec (missing ctx spec)

unfoldable pub check : PolicyService → ExecContext → CommandSpec → Decision
check s ctx spec = or_default (gate s ctx spec) allow

unfoldable pub is_permitted : PolicyService → ExecContext → CommandSpec → Bool
is_permitted s ctx spec = not (is_some (gate s ctx spec))
