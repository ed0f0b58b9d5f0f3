-- ===== src/Core/Events.antt =====
-- core/events.py: the domain events. The raw payloads that the chat log keeps (`raw_event`,
-- `raw_line`, `enrichment`, `fragments`) and the bits and rewards are read by no part modelled here,
-- and are left out.
use doomtp_bot.Prelude.{ℕ, String, Bool, Option, List, Text, map}

pub record Badge : Type 0 where
  pub set_id : String
  pub id : String
  pub info : String

pub data Source : Type 0 where
  eventsub ivr_logs recent_messages : Source

pub record ChatMessage : Type 0 where
  pub message_id : String
  pub channel_id : String
  pub channel_login : String
  pub user_id : String
  pub user_login : String
  pub display_name : String
  pub text : Text
  pub sent_at : ℕ
  pub badges : List Badge
  pub reply_parent_id : Option String
  pub reply_parent_user_id : Option String
  pub reply_parent_login : Option String
  pub reply_parent_display : Option String
  pub is_self : Bool
  pub source : Source

-- frozenset(b.set_id for b in msg.badges)
abbrev pub badge_ids : ChatMessage → List String
badge_ids msg = map (λ b. b.set_id) msg.badges

-- The three events that take messages away, as `MessageDeleted | UserMessagesCleared | ChatCleared`.
pub data Removal : Type 0 where
  message_deleted : (channel_id message_id : String) (at : ℕ) → Removal
  user_messages_cleared : (channel_id target_user_id : String) (at : ℕ) → Removal
  chat_cleared : (channel_id : String) (at : ℕ) → Removal
