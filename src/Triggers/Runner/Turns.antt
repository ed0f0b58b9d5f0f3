-- ===== src/Triggers/Runner/Turns.antt =====
-- A trigger's channel-wide cooldown.
use doomtp_bot.Prelude.{
  ℕ, ◌+◌, ◌*◌, ◌≤◌, ◌<◌, String, ◌≡◌, true, false, Option, arith, lt→ltb, string_eq, pair_eq,
  beq_refl,
}
use doomtp_bot.Policy.Tracker.{Key, CooldownTracker, ready, state, remaining, commit}
use doomtp_bot.Policy.Tracker.Commit.{IsValid, same_key, tier_remaining-commit}
use doomtp_bot.Triggers.Service.{Trigger}
use doomtp_bot.Triggers.Runner.{channel_cooldown_s, cooling, take_turn, bucket_name}

module _ (show : ℕ → String) where
  remaining_positive : (until now : ℕ) → now < until → 0 < remaining until now
  unfolding remaining
  remaining_positive until now h = omega arith

  taken :
      (tracker : CooldownTracker) (now : ℕ) (t : Trigger) (user_id : Option String)
      → (take_turn show tracker now t user_id).1 ≡ true
      → 0 < channel_cooldown_s t
      → (take_turn show tracker now t user_id).0
        ≡ commit tracker now t.channel_id
            (bucket_name show t)
            "trigger"
            user_id
            (record { tier_s = channel_cooldown_s t; user_s = t.user_cooldown_s })
  unfolding take_turn
  taken tracker now t user_id h long = ground (arith, h, long)

  cooling-positive :
      (tracker : CooldownTracker) (now : ℕ) (t : Trigger) (user_id : Option String)
      → 0 < (state tracker now t.channel_id (bucket_name show t) "trigger" user_id).tier_remaining
      → 0 < channel_cooldown_s t
      → cooling show tracker now t user_id ≡ true
  unfolding cooling ready
  cooling-positive tracker now t user_id h long = ground (arith, h, long)

  -- Once a trigger fired in a channel, it does not fire there again, for anybody, until its channel-wide
  -- cooldown is over, and the refused firings change nothing.
  pub take_turn-again :
      (tracker : CooldownTracker) (now later : ℕ) (t : Trigger) (user_id other : Option String)
      → IsValid tracker
      → (take_turn show tracker now t user_id).1 ≡ true
      → now ≤ later
      → later < now + channel_cooldown_s t * 1000
      → take_turn show (take_turn show tracker now t user_id).0 later t other
        ≡ ((take_turn show tracker now t user_id).0, false)
  take_turn-again tracker now later t user_id other v fired le lt =
      refused (cooling-positive (take_turn show tracker now t user_id).0 later t other shown long)
    where
      long : 0 < channel_cooldown_s t
      long = omega arith

      same :
          same_key
            (t.channel_id, (bucket_name show t, "trigger"))
            (t.channel_id, (bucket_name show t, "trigger"))
          ≡ true
      same = beq_refl {K = Key} (t.channel_id, (bucket_name show t, "trigger"))

      shown :
          0
          < (state
              (take_turn show tracker now t user_id).0
              later
              t.channel_id
              (bucket_name show t)
              "trigger"
              other).tier_remaining
      shown =
          rw
            (
              taken tracker now t user_id fired long,
              tier_remaining-commit tracker now later t.channel_id (bucket_name show t) "trigger"
                  user_id (record { tier_s = channel_cooldown_s t; user_s = t.user_cooldown_s })
                  t.channel_id (bucket_name show t) "trigger" other v le,
              lt→ltb 0 (channel_cooldown_s t) long,
              same,
            )
            (remaining_positive (now + channel_cooldown_s t * 1000) later lt)

      refused :
          cooling show (take_turn show tracker now t user_id).0 later t other ≡ true
          → take_turn show (take_turn show tracker now t user_id).0 later t other
            ≡ ((take_turn show tracker now t user_id).0, false)
      refused hot = unfold take_turn in ground (arith, hot)
