-- ===== src/Moderation/Automod/Tests.antt =====
-- A chatter's blocked line in a channel where the bot is a moderator, and the theorem at it.
use doomtp_bot.Prelude.{◌≡◌, ◌≢◌, ◌<◌, refl, true, some, [], ◌∷◌, string_eq, contains}
use doomtp_bot.Prelude.Dict
use doomtp_bot.Core.Capabilities.{moderate}
use doomtp_bot.Policy.Roles.{moderator_rank, builtin_ranks, badge_roles, roles_from_badges}
use doomtp_bot.Policy.Snapshot.{custom_roles_for}
use doomtp_bot.Policy.Service.Chatters.{
  build_chatter, named_roles, add_badge_roles, add_custom_roles, max_rank,
}
use doomtp_bot.Core.Samples.{joined_channel, moderated, blocks_all, line}
use doomtp_bot.Moderation.Automod.{Verdict, verdict, verdict_in, sentence, chatter_of, timeout}
use doomtp_bot.Moderation.Automod.Verdicts
use doomtp_bot.Moderation.Automod.Verdicts.{IsSentence}

abbrev ten_minutes : Verdict
ten_minutes = record { action = timeout; patterns = "bad" ∷ []; seconds = 600 }

timed_out : verdict blocks_all moderated 5000 line ≡ some ten_minutes
unfolding verdict verdict_in sentence build_chatter named_roles add_badge_roles add_custom_roles
    max_rank builtin_ranks badge_roles roles_from_badges custom_roles_for Dict.get Dict.put
timed_out = refl

verdict_lem_example :
    (joined_channel.automod_action ≢ "off")
    × (contains moderate joined_channel.capabilities ≡ true)
    × ((chatter_of moderated 5000 line).rank < moderator_rank)
    × (blocks_all "c" line.text ≡ some ten_minutes.patterns)
    × IsSentence joined_channel ten_minutes
unfolding Dict.get
verdict_lem_example =
    Verdicts.verdict_lem blocks_all moderated 5000 line joined_channel ten_minutes refl timed_out
