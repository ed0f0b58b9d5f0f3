-- ===== src/Triggers/Service.antt =====
-- triggers/service.py: the triggers in memory, and the queries on them. A trigger's JSON objects (match
-- and schedule) are records of the keys that the bot reads; a listener's regular expression is matched
-- by a parameter. The database and the management calls are not modelled.

pub mod Scope
mod Tests
use doomtp_bot.Prelude.{
  ℕ, ◌*◌, String, Bool, true, false, not, ◌&&◌, ◌||◌, Option, none, some, List, [], ◌∷◌, ◌++◌, Text,
  leb, ltb, eqb, ◌==◌, nat_eq, string_eq, contains, keep, map, or_default, is_some, if◌then◌else◌,
}
use doomtp_bot.Prelude.Dict
use doomtp_bot.Prelude.Dict.{Dict}
use doomtp_bot.Core.Dispatch.RunLog.{LogLevel}
use doomtp_bot.Policy.Roles.{global}
use doomtp_bot.Policy.Snapshot.{ChannelSettings}
use doomtp_bot.Policy.Service.{PolicyService}
use doomtp_bot.Policy.Service.Toggles.{module_on}
use doomtp_bot.Triggers.Cron.{Cron}

pub record Conditions : Type 0 where
  pub reward_id : Option String
  pub min_viewers : Option ℕ
  pub min_bits : Option ℕ
  pub min_months : Option ℕ

pub record Schedule : Type 0 where
  pub every_s : ℕ
  pub jitter_s : ℕ
  pub only_live : Bool
  pub min_chat_lines : ℕ

pub record Trigger : Type 0 where
  pub id : ℕ
  pub channel_id : String
  pub type : String
  pub conditions : Conditions
  pub schedule : Schedule
  pub expr : String
  pub run_as_rank : ℕ
  pub enabled : Bool
  pub log_level : LogLevel
  pub created_by : String
  pub pack : Option String
  pub pack_key : String
  pub pack_id : Option String
  pub cooldown_s : ℕ
  pub user_cooldown_s : ℕ

-- What `_matches` reads of an event's payload; a missing number is 0, and a missing reward none.
pub record EventPayload : Type 0 where
  pub reward_id : Option String
  pub viewers : ℕ
  pub bits : ℕ
  pub months : ℕ

pub record TriggerService : Type 0 where
  -- PackScope, where there is one
  pub scope : Option PolicyService
  pub by_channel : Dict String (List Trigger)
  pub crons_by_id : Dict ℕ Cron
  pub pack_list : List Trigger
  pub pack_scopes : Dict String (List String)

-- `GLOBAL not in scopes and channel_id not in scopes`
abbrev pub published : TriggerService → String → Trigger → Bool
published s channel_id t =
    let scopes = or_default (Dict.get (or_default t.pack_id "") s.pack_scopes) [] in
    contains global scopes || contains channel_id scopes

abbrev pub pack_on : TriggerService → String → Trigger → Bool
pack_on s channel_id t = elim s.scope [
  | none ↦ true
  | some policy ↦ module_on policy channel_id (or_default t.pack "")
]

-- dataclasses.replace(trigger, channel_id=channel_id)
abbrev pub placed : String → Trigger → Trigger
placed channel_id t = record t { channel_id = channel_id }

-- _packs_in
unfoldable pub packs_in : TriggerService → String → List Trigger
packs_in s channel_id =
    map (placed channel_id)
      (keep (λ t. published s channel_id t && pack_on s channel_id t) s.pack_list)

unfoldable pub in_channel : TriggerService → String → List Trigger
in_channel s channel_id = or_default (Dict.get channel_id s.by_channel) [] ++ packs_in s channel_id

abbrev pub is_on : String → Trigger → Bool
is_on type t = (t.type == type) && t.enabled

unfoldable pub of_type : TriggerService → String → String → List Trigger
of_type s channel_id type = keep (is_on type) (in_channel s channel_id)

unfoldable pub own_triggers : Dict String (List Trigger) → List Trigger
own_triggers [] = []
own_triggers ((channel_id, group) ∷ d) = group ++ own_triggers d

unfoldable pub packs_everywhere : TriggerService → Dict String ChannelSettings → List Trigger
packs_everywhere s [] = []
packs_everywhere s ((channel_id, settings) ∷ d) =
    let rest = packs_everywhere s d in
    if settings.active then packs_in s settings.channel_id ++ rest else rest

-- _every_channel
unfoldable pub every_channel : TriggerService → List Trigger
every_channel s =
    own_triggers s.by_channel
    ++ elim s.scope [ none ↦ [] | some policy ↦ packs_everywhere s policy.snapshot.channels ]

unfoldable pub timers : TriggerService → List Trigger
timers s = keep (is_on "timer") (every_channel s)

unfoldable pub crons : TriggerService → List Trigger
crons s = keep (λ t. is_on "cron" t && is_some (Dict.get t.id s.crons_by_id)) (every_channel s)

abbrev pub at_least : Option ℕ → ℕ → Bool
at_least none n = true
at_least (some least) n = leb least n

-- `str(payload…id) == str(conditions["reward_id"])`; a payload without one prints as `None`.
abbrev pub same_reward : Option String → Option String → Bool
same_reward none got = true
same_reward (some wanted) got = or_default got "None" == wanted

-- _matches
unfoldable pub matches : Conditions → EventPayload → Bool
matches conditions payload =
    same_reward conditions.reward_id payload.reward_id
    && at_least conditions.min_viewers payload.viewers
    && at_least conditions.min_bits payload.bits
    && at_least conditions.min_months payload.months

unfoldable pub event_triggers : TriggerService → String → String → EventPayload → List Trigger
event_triggers s channel_id type payload =
    keep (λ t. matches t.conditions payload) (of_type s channel_id type)

abbrev pub no_chatter : List String
no_chatter =
    "timer" ∷ "cron" ∷ "stream_online" ∷ "stream_offline" ∷ "bot_online" ∷ "bot_updated"
    ∷ "bot_joined" ∷ "bot_modded" ∷ "bot_unmodded" ∷ []

abbrev pub max_cooldown_s : ℕ
max_cooldown_s = 86400

pub data TriggerError : Type 0 where
  cooldown_range no_chatter_to_hold : TriggerError

-- check_cooldowns: what it raises
unfoldable pub check_cooldowns : String → ℕ → ℕ → Option TriggerError
check_cooldowns type cooldown_s user_cooldown_s =
    if not (leb cooldown_s max_cooldown_s && leb user_cooldown_s max_cooldown_s)
    then some cooldown_range
    else if not (eqb user_cooldown_s 0) && contains type no_chatter
    then some no_chatter_to_hold
    else none
