-- ===== src/Moderation/Automod/Verdicts.antt =====
-- Whom AutoMod may act on, and how.
use mathlib.Core.Path.{subst}
use doomtp_bot.Prelude.{
  ℕ, ◌≤◌, ◌<◌, String, ◌≡◌, ◌≢◌, refl, true, Option, none, some, List, Text, arith, string_eq,
  contains, inl, inr, Bool-cases, eq_iff, ◌==◌, min, max,
}
use doomtp_bot.Prelude.Dict
use doomtp_bot.Core.Events.{ChatMessage}
use doomtp_bot.Core.Capabilities.{moderate}
use doomtp_bot.Policy.Roles.{moderator_rank}
use doomtp_bot.Policy.Snapshot.{ChannelSettings}
use doomtp_bot.Policy.Service.{PolicyService}
use doomtp_bot.Moderation.Automod.{
  Verdict, verdict, verdict_in, sentence, chatter_of, max_timeout_s, delete, timeout,
}

-- The seconds are those of a timeout that Twitch takes, or none for a deletion.
abbrev pub IsSentence : ChannelSettings → Verdict → Type 0
IsSentence settings v = elim v.action [
  | delete ↦ (v.seconds ≡ 0) × (settings.automod_action ≢ "timeout")
  | timeout ↦ (1 ≤ v.seconds) × (v.seconds ≤ max_timeout_s) × (settings.automod_action ≡ "timeout")
]

sentence_lem :
    (settings : ChannelSettings) (blocked : Option (List String)) (v : Verdict)
    → sentence settings blocked ≡ some v
    → (blocked ≡ some v.patterns) × IsSentence settings v
unfolding sentence
sentence_lem settings none v h = absurd (cc h)
sentence_lem settings (some patterns) v h =
    elim (Bool-cases (settings.automod_action == "timeout")) [
      | inl times ↦
          let e : (record {
            action = timeout;
            patterns = patterns;
            seconds = min (max settings.automod_timeout_s 1) max_timeout_s;
          })
              ≡ v =
            ground (arith, h, times) in
          subst (λ w. (some patterns ≡ some w.patterns) × IsSentence settings w) e
            (refl, (omega arith, omega arith, (eq_iff settings.automod_action "timeout").0 times))
      | inr deletes ↦
          let e : (record { action = delete; patterns = patterns; seconds = 0 }) ≡ v =
            ground (arith, h, deletes) in
          subst (λ w. (some patterns ≡ some w.patterns) × IsSentence settings w) e
            (
              refl,
              (refl, λ q. ground (arith, (eq_iff settings.automod_action "timeout").1 q, deletes)),
            )
    ]

-- AutoMod acts only in a channel that turned it on, where the bot may moderate, on a chatter below the
-- moderators, for a text that the word list blocks.
pub verdict_lem :
    (blocked : String → Text → Option (List String)) (s : PolicyService) (now_ms : ℕ)
    (msg : ChatMessage) (settings : ChannelSettings) (v : Verdict)
    → Dict.get msg.channel_id s.snapshot.channels ≡ some settings
    → verdict blocked s now_ms msg ≡ some v
    → (settings.automod_action ≢ "off")
      × (contains moderate settings.capabilities ≡ true)
      × ((chatter_of s now_ms msg).rank < moderator_rank)
      × (blocked msg.channel_id msg.text ≡ some v.patterns)
      × IsSentence settings v
unfolding verdict verdict_in
verdict_lem blocked s now_ms msg settings v known h =
    let e : verdict_in s now_ms msg (blocked msg.channel_id msg.text) (some settings) ≡ some v =
      ground (arith, known, h) in
    let sentenced : sentence settings (blocked msg.channel_id msg.text) ≡ some v =
      ground (arith, e) in
    let (blocks, fits) = sentence_lem settings _ v sentenced in
    (
      (λ q. ground (arith, eq_iff settings.automod_action "off", q, e)),
      ground (arith, e),
      ground (arith, e),
      blocks,
      fits,
    )
