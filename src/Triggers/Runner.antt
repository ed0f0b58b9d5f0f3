-- ===== src/Triggers/Runner.antt =====
-- triggers/runner.py: a trigger's own cooldowns (ADR-0031), from `run` up to the run itself. The run, the
-- outbox and the log are not modelled: a firing that is let through is one whose turn was taken.
pub mod Turns
use Prim.Native.String.{◌++◌ as text_append}
use doomtp_bot.Prelude.{
  ℕ, String, Bool, true, false, not, ◌&&◌, ◌||◌, Option, none, some, List, [], ◌∷◌, max, eqb,
  string_eq, or_default, if◌then◌else◌,
}
use doomtp_bot.Prelude.Dict
use doomtp_bot.Prelude.Dict.{Dict}
use doomtp_bot.Policy.Snapshot.{Cooldown}
use doomtp_bot.Policy.Tracker.{CooldownTracker, ready, state, commit}
use doomtp_bot.Triggers.Service.{Trigger}

-- MIN_CHANNEL_COOLDOWN_S
unfoldable pub min_channel_cooldown_s : Dict String ℕ
min_channel_cooldown_s = ("bot_online", 900) ∷ []

unfoldable pub channel_cooldown_s : Trigger → ℕ
channel_cooldown_s t = max t.cooldown_s (or_default (Dict.get t.type min_channel_cooldown_s) 0)

-- Decimal digits of an id, by `str`, are a parameter.
module _ (show : ℕ → String) where
  -- f"trigger:{trigger.id}"
  abbrev pub bucket_name : Trigger → String
  bucket_name t = text_append "trigger:" (show t.id)

  -- not self.channel_cooldown_s(trigger) and not trigger.user_cooldown_s
  abbrev pub never_cools : Trigger → Bool
  never_cools t = eqb (channel_cooldown_s t) 0 && eqb t.user_cooldown_s 0

  unfoldable pub cooling : CooldownTracker → ℕ → Trigger → Option String → Bool
  cooling tracker now t user_id =
      if never_cools t
      then false
      else not (ready (state tracker now t.channel_id (bucket_name t) "trigger" user_id))

  -- The start of `run`: whether the trigger goes on to run, and the cooldowns after it.
  unfoldable pub take_turn : CooldownTracker → ℕ → Trigger → Option String → CooldownTracker × Bool
  take_turn tracker now t user_id =
      if cooling tracker now t user_id
      then (tracker, false)
      else if never_cools t
      then (tracker, true)
      else (
        commit tracker now t.channel_id (bucket_name t) "trigger" user_id
            (record { tier_s = channel_cooldown_s t; user_s = t.user_cooldown_s }),
        true,
      )
