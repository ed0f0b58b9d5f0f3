-- ===== src/Moderation/Index/Tests.antt =====
-- A small moderation index, and the theorems at it.
use doomtp_bot.Prelude.{◌≡◌, refl, true, none, some, [], ◌∷◌, arith, string_eq, pair_eq}
use doomtp_bot.Prelude.Dict
use doomtp_bot.Core.Events.{message_deleted, user_messages_cleared, chat_cleared}
use doomtp_bot.Moderation.Index.{
  ModerationIndex, record_removal, is_invalidated, prune, put_last, was_deleted, user_cleared,
}
use doomtp_bot.Moderation.Index.Record
use doomtp_bot.Moderation.Index.Record.{IsValid}

abbrev quiet : ModerationIndex
quiet = record { deleted = ("m1", 5000) ∷ []; user_clears = []; chat_clears = [] }

quiet-IsValid : IsValid quiet
quiet-IsValid = record { clears = tt; bounded = ground arith }

record_removal-deleted_example :
    is_invalidated
      (record_removal quiet 700000 (message_deleted "c" "m2" 699000))
      "c"
      (some "m2")
      (some "u")
      698000
    ≡ true
record_removal-deleted_example =
    Record.record_removal-deleted quiet 700000 699000 698000 "c" "c" "m2" (some "u") (λ e. cc e)

record_removal-chat_cleared_example :
    is_invalidated (record_removal quiet 7000 (chat_cleared "c" 6500)) "c" none none 6000 ≡ true
unfolding is_invalidated was_deleted user_cleared Dict.get
record_removal-chat_cleared_example =
    Record.record_removal-chat_cleared quiet 7000 6500 6000 "c" "c" none none

record_removal-user_cleared_example :
    is_invalidated
      (record_removal quiet 7000 (user_messages_cleared "c" "u" 6500))
      "c"
      none
      (some "u")
      6000
    ≡ true
unfolding is_invalidated was_deleted user_cleared Dict.get
record_removal-user_cleared_example =
    Record.record_removal-user_cleared quiet 7000 6500 6000 "c" "c" "u" "u" none tt (λ e. cc e)
      (ground arith)

-- A message recorded more than ten minutes ago goes when the next deletion is recorded.
old_deletion :
    (record_removal quiet 700000 (message_deleted "c" "m2" 699000)).deleted ≡ ("m2", 700000) ∷ []
unfolding record_removal put_last prune Dict.remove
old_deletion = refl
