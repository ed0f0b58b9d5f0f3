-- ===== src/Core/Samples.antt =====
-- A channel, its policy and a chat line, for the tests of the other modules.
use doomtp_bot.Prelude.{String, true, false, none, some, List, [], ◌∷◌, Text, Option}
use doomtp_bot.Core.Events.{ChatMessage, eventsub}
use doomtp_bot.Policy.Snapshot.{ChannelSettings, empty_snapshot}
use doomtp_bot.Policy.Service.{PolicyService}

abbrev pub joined_channel : ChannelSettings
joined_channel = record {
  channel_id = "c";
  login = "channel";
  active = true;
  status = "joined";
  tier = "full";
  capabilities = "chat" ∷ "moderate" ∷ "bits" ∷ [];
  prefix = "!";
  reply_hold_ms = 0;
  log_enabled = true;
  history_backfill = false;
  public_log = false;
  quiet_errors = false;
  cc_edit_notice = false;
  timezone = "UTC";
  automod_action = "timeout";
  automod_timeout_s = 600;
  channel_var_write_role = "moderator";
  grant_min_role = "moderator";
  publish_min_role = "moderator";
  create_min_role = "moderator";
  var_admin_role = "moderator";
}

abbrev pub moderated : PolicyService
moderated = record {
  owners = [];
  cooldowns = record { tier = []; user = [] };
  snapshot = record empty_snapshot { channels = ("c", joined_channel) ∷ [] };
  callback_sent = [];
}

abbrev pub blocks_all : String → Text → Option (List String)
blocks_all channel_id text = some ("bad" ∷ [])

abbrev pub line : ChatMessage
line = record {
  message_id = "m1";
  channel_id = "c";
  channel_login = "channel";
  user_id = "u";
  user_login = "user";
  display_name = "User";
  text = 98 ∷ 97 ∷ 100 ∷ [];
  sent_at = 5000;
  badges = [];
  reply_parent_id = none;
  reply_parent_user_id = none;
  reply_parent_login = none;
  reply_parent_display = none;
  is_self = false;
  source = eventsub;
}
