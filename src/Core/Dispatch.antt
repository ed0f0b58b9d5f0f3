-- ===== src/Core/Dispatch.antt =====
-- core/dispatch.py: each domain event to the chat log, the moderation index, the watchers and the
-- runs. The dispatcher's parts that change are a record; the clock is an argument, in milliseconds.
-- What it writes and the tasks that it spawns are a list of effects, in order. The chat log, the
-- parser's `looks_like_command`, Unicode lower case, the word list and the trigger tables are fields
-- of `Services`. The policy is read once for a line, as it is in the bot unless the database changes
-- while the line is being logged.
pub mod RunLog
pub mod Route
pub mod Keep
mod Tests
use doomtp_bot.Prelude.{
  ℕ, ◌+◌, String, Bool, true, false, not, ◌&&◌, ◌||◌, Option, none, some, List, [], ◌∷◌, ◌++◌, Text,
  ◌==◌, nat_eq, string_eq, list_eq, split, drop, take, length, or_default, map, contains, points,
  list_beq, if◌then◌else◌,
}
use doomtp_bot.Prelude.Dict
use doomtp_bot.Prelude.Dict.{Dict}
use doomtp_bot.Core.Events.{
  ChatMessage, Source, eventsub, ivr_logs, recent_messages, Removal, badge_ids,
}
use doomtp_bot.Moderation.Index.{ModerationIndex, record_removal}
use doomtp_bot.Moderation.Automod.{Verdict, verdict}
use doomtp_bot.Policy.Snapshot.{ChannelSettings}
use doomtp_bot.Policy.Service.{PolicyService}
use doomtp_bot.Policy.Service.Chatters.{is_ignored, ignored_only_by_self}
use doomtp_bot.Watchers.Pyramid.{Open, WatchEvent, observe, forget}

-- What the dispatcher asks of the parts around it.
pub record Services : Type 0 where
  -- str.lower, of a login and of a word
  pub lower_login : String → String
  pub lower : Text → Text
  -- looks_like_command(msg.text, prefix, msg.reply_mentions)
  pub looks_like_command : ChatMessage → String → Bool
  -- any(self.triggers.of_type(channel_id, t) for t in watcher.types)
  pub has_pyramid_trigger : String → Bool
  -- the word list's patterns that hit, where one of them blocks
  pub blocked : String → Text → Option (List String)
  pub default_prefix : String

-- A part that the dispatcher was built without is none.
pub record Dispatcher : Type 0 where
  pub policy : PolicyService
  pub moderation : ModerationIndex
  pub activity : Option (Dict String ℕ)
  pub watcher : Option Open
  pub automod : Bool
  pub bot_badges : Option (Dict String (List String))

pub data Work : Type 0 where
  run : ChatMessage → Work
  listeners : ChatMessage → Work
  enforce : ChatMessage → Verdict → Work
  watch_triggers : (channel_login : String) (events : List WatchEvent) → Work
  notification_triggers : (id channel_id : String) → Work
  stream_triggers : (channel_id : String) (live : Bool) → Work

pub data Effect : Type 0 where
  follow_rename : (channel_id login : String) → Effect
  log_message : ChatMessage → (is_command : Bool) → Effect
  log_notification : (id channel_id : String) → Effect
  log_moderation : Removal → Effect
  spawn : Work → Effect

pub data Event : Type 0 where
  chat_message : ChatMessage → Event
  chat_notification : (id channel_id : String) → Event
  removal : Removal → Event
  stream_status_changed : (channel_id : String) (live : Bool) (at : ℕ) → Event

-- core/channels.py: _is_joined
unfoldable pub is_joined : Option ChannelSettings → Bool
is_joined none = false
is_joined (some settings) = settings.active && (settings.status == "joined")

abbrev pub settings_of : Dispatcher → String → Option ChannelSettings
settings_of d channel_id = Dict.get channel_id d.policy.snapshot.channels

-- core/channels.py: ChannelManager.is_active
unfoldable pub is_active : Dispatcher → String → Bool
is_active d channel_id = is_joined (settings_of d channel_id)

-- BOT_BADGE_SET_IDS
abbrev pub bot_badge : String
bot_badge = "bot-badge"

abbrev pub unignore_me : List Text
unignore_me = points "unignore" ∷ points "me" ∷ []

-- `text.startswith(prefix)` and the words that follow
unfoldable pub is_unignore_me : (Text → Text) → Text → Text → Bool
is_unignore_me lower text prefix =
    (take (length prefix) text == prefix)
    && (map lower (split (drop (length prefix) text)) == unignore_me)

-- `settings.login != msg.channel_login.lower()`, for a message that names its channel
unfoldable pub renamed : Services → Option ChannelSettings → ChatMessage → List Effect
renamed env none msg = []
renamed env (some settings) msg =
    if not (msg.channel_login == "") && not (settings.login == env.lower_login msg.channel_login)
    then follow_rename msg.channel_id (env.lower_login msg.channel_login) ∷ []
    else []

abbrev pub prefix_in : Services → Option ChannelSettings → String
prefix_in env none = env.default_prefix
prefix_in env (some settings) = settings.prefix

unfoldable pub logged : Option ChannelSettings → ChatMessage → Bool → List Effect
logged none msg is_command = log_message msg is_command ∷ []
logged (some settings) msg is_command =
    if settings.log_enabled then log_message msg is_command ∷ [] else []

-- triggers/timers.py: ChatActivity.saw_message
unfoldable pub saw_message : String → Dict String ℕ → Dict String ℕ
saw_message channel_id counts =
    Dict.put channel_id (or_default (Dict.get channel_id counts) 0 + 1) counts

unfoldable pub count_line : ChatMessage → Option (Dict String ℕ) → Option (Dict String ℕ)
count_line msg none = none
count_line msg (some counts) =
    some (if msg.is_self then counts else saw_message msg.channel_id counts)

abbrev pub from_eventsub : Source → Bool
from_eventsub eventsub = true
from_eventsub ivr_logs = false
from_eventsub recent_messages = false

-- `if events: self._spawn(…)`
abbrev pub watch_work : ChatMessage → List WatchEvent → List Effect
watch_work msg [] = []
watch_work msg (e ∷ es) = spawn (watch_triggers msg.channel_login (e ∷ es)) ∷ []

-- `_watch`, for the one watcher that the bot runs
unfoldable pub watch : Services → ChatMessage → Open → Open × List Effect
watch env msg opened =
    let (next, events) = observe opened msg in
    if env.has_pyramid_trigger msg.channel_id
    then (next, watch_work msg events)
    else (forget opened msg.channel_id, [])

-- `if self.watchers and msg.source == "eventsub"`
unfoldable pub watched : Services → ChatMessage → Option Open → Option Open × List Effect
watched env msg none = (none, [])
watched env msg (some opened) =
    let (next, effects) = watch env msg opened in
    if from_eventsub msg.source then (some next, effects) else (some opened, [])

-- core/links.py: BotBadges.saw, for the bot's own line
unfoldable pub saw_badges :
    ChatMessage → Option (Dict String (List String)) → Option (Dict String (List String))
saw_badges msg none = none
saw_badges msg (some sets) =
    some (if msg.is_self then Dict.put msg.channel_id (badge_ids msg) sets else sets)

unfoldable pub verdict_on : Services → Dispatcher → ℕ → ChatMessage → Option Verdict
verdict_on env d now msg = if d.automod then verdict env.blocked d.policy now msg else none

unfoldable pub judged : ChatMessage → Bool → Option Verdict → List Effect
judged msg is_command none = if is_command then spawn (run msg) ∷ [] else spawn (listeners msg) ∷ []
judged msg is_command (some v) = spawn (enforce msg v) ∷ []

-- What a line may start, from `if msg.is_self` to the end of `_message`.
unfoldable pub route : Services → Dispatcher → ℕ → ChatMessage → String → Bool → List Effect
route env d now msg prefix is_command =
    if msg.is_self
    then []
    else if contains bot_badge (badge_ids msg)
    then []
    else if is_ignored d.policy msg.channel_id msg.user_id
    then (if is_unignore_me env.lower msg.text (points prefix)
          && ignored_only_by_self d.policy msg.channel_id msg.user_id
        then spawn (run msg) ∷ []
        else [])
    else judged msg is_command (verdict_on env d now msg)

-- _message, of a channel that is joined
unfoldable pub admit : Services → Dispatcher → ℕ → ChatMessage → Dispatcher × List Effect
admit env d now msg =
    let settings = settings_of d msg.channel_id in
    let prefix = prefix_in env settings in
    let is_command = env.looks_like_command msg prefix in
    let (watcher, watch_effects) = watched env msg d.watcher in
    (
      record d {
        activity = count_line msg d.activity;
        watcher = watcher;
        bot_badges = saw_badges msg d.bot_badges;
      },
      renamed env settings msg
          ++ (logged settings msg is_command
              ++ (watch_effects ++ route env d now msg prefix is_command)),
    )

-- _message
unfoldable pub message : Services → Dispatcher → ℕ → ChatMessage → Dispatcher × List Effect
message env d now msg = if is_active d msg.channel_id then admit env d now msg else (d, [])

abbrev pub removal_channel : Removal → String
removal_channel (Removal.message_deleted channel_id message_id at) = channel_id
removal_channel (Removal.user_messages_cleared channel_id user_id at) = channel_id
removal_channel (Removal.chat_cleared channel_id at) = channel_id

-- handle
unfoldable pub handle : Services → Dispatcher → ℕ → Event → Dispatcher × List Effect
handle env d now (chat_message msg) = message env d now msg
handle env d now (chat_notification id channel_id) =
    if is_active d channel_id
    then (d, log_notification id channel_id ∷ spawn (notification_triggers id channel_id) ∷ [])
    else (d, [])
handle env d now (removal event) = (
  record d { moderation = record_removal d.moderation now event },
  (if is_active d (removal_channel event) then log_moderation event ∷ [] else []),
)
handle env d now (stream_status_changed channel_id live at) =
    if is_active d channel_id then (d, spawn (stream_triggers channel_id live) ∷ []) else (d, [])
