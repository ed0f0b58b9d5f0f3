-- ===== src/Core/Dispatch/Tests.antt =====
-- A dispatcher with a joined channel, and the theorems at it.
use doomtp_bot.Prelude.{
  ◌≡◌, ◌≤◌, length, keep, refl, true, false, not, ◌&&◌, none, some, [], arith, any, string_eq,
  contains,
}
use doomtp_bot.Prelude.Dict
use doomtp_bot.Prelude.Dict.{Entries-empty}
use doomtp_bot.Core.Events.{ChatMessage, message_deleted, badge_ids}
use doomtp_bot.Core.Samples.{moderated, line}
use doomtp_bot.Moderation.Index.{is_invalidated}
use doomtp_bot.Core.Dispatch.{
  Services, Dispatcher, chat_message, removal, is_active, is_joined, message, handle, bot_badge,
}
use doomtp_bot.Core.Dispatch.Route
use doomtp_bot.Core.Dispatch.Route.{is_run, is_reaction, may_run}
use doomtp_bot.Core.Dispatch.Keep
use doomtp_bot.Core.Dispatch.Keep.{IsValid, event_channel}

abbrev services : Services
services = record {
  lower_login = λ login. login;
  lower = λ word. word;
  looks_like_command = λ msg prefix. true;
  has_pyramid_trigger = λ channel_id. true;
  blocked = λ channel_id text. none;
  default_prefix = "!";
}

abbrev idle : Dispatcher
idle = record {
  policy = moderated;
  moderation = record { deleted = []; user_clears = []; chat_clears = [] };
  activity = some [];
  watcher = some [];
  automod = true;
  bot_badges = some [];
}

idle-IsValid : IsValid idle
idle-IsValid = record {
  pyramids = Entries-empty;
  removals = record { clears = tt; bounded = ground arith };
}

abbrev elsewhere : ChatMessage
elsewhere = record line { channel_id = "x" }

own_line : any is_run (message services idle 5000 (record line { is_self = true })).1 ≡ false
unfolding is_active is_joined Dict.get
own_line = Route.message-run services idle 5000 (record line { is_self = true })

handle-IsValid_example : IsValid (handle services idle 5000 (chat_message line)).0
handle-IsValid_example = Keep.handle-IsValid services idle 5000 (chat_message line) idle-IsValid

handle-deleted_example :
    is_invalidated
      (handle services idle 5000 (removal (message_deleted "c" "m1" 4900))).0.moderation
      "c"
      (some "m1")
      (some "u")
      5000
    ≡ true
handle-deleted_example = Keep.handle-deleted services idle 5000 4900 "c" line (λ e. cc e)

message-run_example : any is_run (message services idle 5000 line).1 ≡ (
    is_active idle "c"
    && not false
    && not (contains bot_badge (badge_ids line))
    && may_run services idle 5000 line)
message-run_example = Route.message-run services idle 5000 line

message_one_example : length (keep is_reaction (message services idle 5000 line).1) ≤ 1
message_one_example = Route.message_one services idle 5000 line

handle_inactive_example :
    ((handle services idle 5000 (chat_message elsewhere)).1 ≡ [])
    × ((handle services idle 5000 (chat_message elsewhere)).0 ≡ record idle {
      moderation = (handle services idle 5000 (chat_message elsewhere)).0.moderation;
    })
unfolding is_active is_joined Dict.get
handle_inactive_example = Keep.handle_inactive services idle 5000 (chat_message elsewhere) refl
