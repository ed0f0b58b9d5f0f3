-- ===== src/Moderation/Automod.antt =====
-- moderation/automod.py: acting on incoming chat. What the channel's word list says of a text is an
-- argument: the patterns that hit, where one of them blocks. `enforce` calls Twitch and is not modelled.
pub mod Verdicts
mod Tests
use doomtp_bot.Prelude.{
  ℕ, String, Bool, true, false, not, Option, none, some, List, Text, leb, min, max, ◌==◌, string_eq,
  contains, if◌then◌else◌,
}
use doomtp_bot.Prelude.Dict
use doomtp_bot.Core.Events.{ChatMessage, badge_ids}
use doomtp_bot.Core.Capabilities.{moderate}
use doomtp_bot.Policy.Roles.{moderator_rank}
use doomtp_bot.Policy.Snapshot.{ChannelSettings}
use doomtp_bot.Policy.Service.{PolicyService, Chatter}
use doomtp_bot.Policy.Service.Chatters.{build_chatter}

abbrev pub max_timeout_s : ℕ
max_timeout_s = 1209600

pub data Action : Type 0 where
  delete timeout : Action

pub record Verdict : Type 0 where
  pub action : Action
  pub patterns : List String
  pub seconds : ℕ

-- The chatter of a message, as `build_chatter` is called for one.
abbrev pub chatter_of : PolicyService → ℕ → ChatMessage → Chatter
chatter_of s now_ms msg =
    build_chatter s now_ms msg.channel_id msg.user_id msg.user_login msg.display_name
      (badge_ids msg)

-- Verdict("timeout", …) or Verdict("delete", patterns)
unfoldable pub sentence : ChannelSettings → Option (List String) → Option Verdict
sentence settings none = none
sentence settings (some patterns) =
    if settings.automod_action == "timeout"
    then some (record {
      action = timeout;
      patterns = patterns;
      seconds = min (max settings.automod_timeout_s 1) max_timeout_s;
    })
    else some (record { action = delete; patterns = patterns; seconds = 0 })

unfoldable pub verdict_in :
    PolicyService → ℕ → ChatMessage → Option (List String) → Option ChannelSettings → Option Verdict
verdict_in s now_ms msg blocked none = none
verdict_in s now_ms msg blocked (some settings) =
    if settings.automod_action == "off"
    then none
    else if not (contains moderate settings.capabilities)
    then none
    else if leb moderator_rank (chatter_of s now_ms msg).rank
    then none
    else sentence settings blocked

unfoldable pub verdict :
    (String → Text → Option (List String)) → PolicyService → ℕ → ChatMessage → Option Verdict
verdict blocked s now_ms msg =
    verdict_in s now_ms msg (blocked msg.channel_id msg.text)
      (Dict.get msg.channel_id s.snapshot.channels)
