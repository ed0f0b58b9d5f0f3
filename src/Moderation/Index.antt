-- ===== src/Moderation/Index.antt =====
-- moderation/index.py: what moderators removed recently. The clock is an argument, in milliseconds.
-- `now - DELETED_TTL_MS` can be below zero in Python: its comparisons are written with the sum on the
-- other side.
pub mod Record
mod Tests
use doomtp_bot.Prelude.{
  ℕ, ◌+◌, max, String, Bool, false, ◌||◌, Option, none, some, List, [], ◌∷◌, ◌++◌, leb, ltb,
  string_eq, pair_eq, given, is_some, or_default, keep, length, if◌then◌else◌,
}
use doomtp_bot.Prelude.Dict
use doomtp_bot.Prelude.Dict.{Dict}
use doomtp_bot.Core.Events.{Removal, message_deleted, user_messages_cleared, chat_cleared}

abbrev pub deleted_ttl_ms : ℕ
deleted_ttl_ms = 600000

abbrev pub max_deleted : ℕ
max_deleted = 20000

-- `deleted` is ordered by when a message was recorded, as the OrderedDict is.
pub record ModerationIndex : Type 0 where
  pub deleted : Dict String ℕ
  pub user_clears : Dict (String × String) ℕ
  pub chat_clears : Dict String ℕ

-- `self._deleted[message_id] = now` and `move_to_end`
unfoldable pub put_last : String → ℕ → Dict String ℕ → Dict String ℕ
put_last message_id now d = Dict.remove message_id d ++ ((message_id, now) ∷ [])

-- _prune
unfoldable pub prune : ℕ → Dict String ℕ → Dict String ℕ
prune now [] = []
prune now ((message_id, at) ∷ d) =
    let rest = prune now d in
    if ltb max_deleted (length ((message_id, at) ∷ d)) || ltb (at + deleted_ttl_ms) now
    then rest
    else (message_id, at) ∷ d

-- _prune_clears
unfoldable pub prune_clears : ℕ → Dict (String × String) ℕ → Dict (String × String) ℕ
prune_clears now d =
    if ltb max_deleted (length d) then keep (λ e. leb now (e.1 + deleted_ttl_ms)) d else d

unfoldable pub record_removal : ModerationIndex → ℕ → Removal → ModerationIndex
record_removal ix now (message_deleted channel message_id at) = record ix {
  deleted = prune now (put_last message_id now ix.deleted);
}
record_removal ix now (user_messages_cleared channel user at) = record ix {
  user_clears = prune_clears now (
      Dict.put (channel, user) (max (or_default (Dict.get (channel, user) ix.user_clears) 0) at)
        ix.user_clears);
}
record_removal ix now (chat_cleared channel at) = record ix {
  chat_clears =
      Dict.put channel (max (or_default (Dict.get channel ix.chat_clears) 0) at) ix.chat_clears;
}

-- `self._chat_clears.get(channel_id, -1) >= sent_at_ms`
abbrev pub cleared_since : Option ℕ → ℕ → Bool
cleared_since none sent_at = false
cleared_since (some at) sent_at = leb sent_at at

-- `message_id and message_id in self._deleted`
unfoldable pub was_deleted : ModerationIndex → Option String → Bool
was_deleted ix none = false
was_deleted ix (some message_id) = is_some (Dict.get message_id ix.deleted)

-- `user_id and self._user_clears.get((channel_id, user_id), -1) >= sent_at_ms`
unfoldable pub user_cleared : ModerationIndex → String → Option String → ℕ → Bool
user_cleared ix channel_id none sent_at = false
user_cleared ix channel_id (some user_id) sent_at =
    cleared_since (Dict.get (channel_id, user_id) ix.user_clears) sent_at

unfoldable pub is_invalidated : ModerationIndex → String → Option String → Option String → ℕ → Bool
is_invalidated ix channel_id message_id user_id sent_at =
    was_deleted ix (given message_id)
    || user_cleared ix channel_id (given user_id) sent_at
    || cleared_since (Dict.get channel_id ix.chat_clears) sent_at
