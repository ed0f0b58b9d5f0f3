-- ===== src/Core/Dispatch/Keep.antt =====
-- What every event keeps and changes of the dispatcher's parts.
use doomtp_bot.Prelude.{
  ℕ, String, ◌≡◌, ◌≢◌, refl, true, false, Option, none, some, [], string_eq, Bool-cases, inl, inr,
}
use doomtp_bot.Prelude.Dict.{Entries-remove}
use doomtp_bot.Core.Events.{ChatMessage, Removal}
use doomtp_bot.Moderation.Index.{is_invalidated}
use doomtp_bot.Moderation.Index.Record.{record_removal-IsValid, record_removal-deleted}
use doomtp_bot.Moderation.Index.Record
use doomtp_bot.Watchers.Pyramid.{Open, forget}
use doomtp_bot.Watchers.Pyramid.Shape.{observe-IsValid}
use doomtp_bot.Watchers.Pyramid.Shape
use doomtp_bot.Core.Dispatch.{
  Services, Dispatcher, Event, chat_message, chat_notification, removal, stream_status_changed,
  removal_channel, is_active, from_eventsub, watch, watched, admit, message, handle,
}

abbrev pub WatcherIsValid : Option Open → Type 0
WatcherIsValid none = Unit
WatcherIsValid (some opened) = Shape.IsValid opened

-- The open pyramids are sound, and the moderation index keeps its bounds.
pub record IsValid (d : Dispatcher) : Type 0 where
  pub pyramids : WatcherIsValid d.watcher
  pub removals : Record.IsValid d.moderation

watch-IsValid :
    (env : Services) (msg : ChatMessage) (opened : Open)
    → Shape.IsValid opened
    → Shape.IsValid (watch env msg opened).0
unfolding watch forget
watch-IsValid env msg opened v = elim (Bool-cases (env.has_pyramid_trigger msg.channel_id)) [
  | inl listens ↦ rw listens (observe-IsValid opened msg v)
  | inr idle ↦ rw idle (Entries-remove msg.channel_id opened v)
]

watched-IsValid :
    (env : Services) (msg : ChatMessage) (w : Option Open)
    → WatcherIsValid w
    → WatcherIsValid (watched env msg w).0
unfolding watched
watched-IsValid env msg none v = v
watched-IsValid env msg (some opened) v = elim (Bool-cases (from_eventsub msg.source)) [
  | inl live ↦ rw live (watch-IsValid env msg opened v)
  | inr past ↦ rw past v
]

-- Every event keeps the dispatcher's parts valid.
pub handle-IsValid :
    (env : Services) (d : Dispatcher) (now : ℕ) (event : Event)
    → IsValid d
    → IsValid (handle env d now event).0
unfolding handle message admit
handle-IsValid env d now (chat_message msg) v = elim (Bool-cases (is_active d msg.channel_id)) [
  | inl joined ↦
      rw joined
        (record { pyramids = watched-IsValid env msg d.watcher v.pyramids; removals = v.removals })
  | inr left ↦ rw left v
]
handle-IsValid env d now (chat_notification id channel_id) v =
    elim (Bool-cases (is_active d channel_id)) [ inl joined ↦ rw joined v | inr left ↦ rw left v ]
handle-IsValid env d now (removal event) v = record {
  pyramids = v.pyramids;
  removals = record_removal-IsValid d.moderation now event v.removals;
}
handle-IsValid env d now (stream_status_changed channel_id live at) v =
    elim (Bool-cases (is_active d channel_id)) [ inl joined ↦ rw joined v | inr left ↦ rw left v ]

-- The channel that an event is of.
abbrev pub event_channel : Event → String
event_channel (chat_message msg) = msg.channel_id
event_channel (chat_notification id channel_id) = channel_id
event_channel (removal event) = removal_channel event
event_channel (stream_status_changed channel_id live at) = channel_id

-- Of a channel that is not joined nothing is written and nothing is started, and all that an event of it
-- can change is what the moderation index knows.
pub handle_inactive :
    (env : Services) (d : Dispatcher) (now : ℕ) (event : Event)
    → is_active d (event_channel event) ≡ false
    → ((handle env d now event).1 ≡ [])
      × ((handle env d now event).0
          ≡ record d { moderation = (handle env d now event).0.moderation })
unfolding handle message
handle_inactive env d now (chat_message msg) left = rw left (refl, refl)
handle_inactive env d now (chat_notification id channel_id) left = rw left (refl, refl)
handle_inactive env d now (removal event) left = rw left (refl, refl)
handle_inactive env d now (stream_status_changed channel_id live at) left = rw left (refl, refl)

-- Once the deletion of a message was handled, in a joined channel or not, the index that results reports
-- the message as invalidated, where the message's id is not empty.
pub handle-deleted :
    (env : Services) (d : Dispatcher) (now at : ℕ) (channel_id : String) (msg : ChatMessage)
    → msg.message_id ≢ ""
    → is_invalidated
        (handle env d now
          (removal (Removal.message_deleted channel_id msg.message_id at))).0.moderation
        msg.channel_id
        (some msg.message_id)
        (some msg.user_id)
        msg.sent_at
      ≡ true
unfolding handle
handle-deleted env d now at channel_id msg named =
    record_removal-deleted d.moderation now at msg.sent_at channel_id msg.channel_id msg.message_id
      (some msg.user_id) named
