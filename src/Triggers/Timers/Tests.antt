-- ===== src/Triggers/Timers/Tests.antt =====
-- A channel with a timer and a cron, a few ticks, and the theorems at them.
use doomtp_bot.Prelude.{
  ℕ, ◌+◌, ◌*◌, ◌≤◌, String, ◌≡◌, refl, true, false, not, ◌&&◌, none, some, [], ◌∷◌, arith, nat_eq,
  string_eq, pair_eq,
}
use doomtp_bot.Prelude.Dict
use doomtp_bot.Core.Dispatch.{is_joined}
use doomtp_bot.Core.Samples.{joined_channel}
use doomtp_bot.Policy.Tracker.{
  CooldownTracker, commit, state, remaining, tier_until, user_until, start_tier, start_user,
  start_named,
}
use doomtp_bot.Policy.Tracker
use doomtp_bot.Triggers.Cron
use doomtp_bot.Triggers.Cron.{
  Cron, Unicode, Outcome, returned, raised, Moment, minute, in_bounds, field_values, checked,
  chunks_numbers, chunk_numbers, commas_from, partition, step_of, ends, value, all_digits,
  digits_from, to_int, numbers, progression, bounds, names, parse_cron, parse_parts,
}
use doomtp_bot.Triggers.Samples.{clock_trigger}
use doomtp_bot.Triggers.Runner.{take_turn, cooling, channel_cooldown_s, min_channel_cooldown_s}
use doomtp_bot.Triggers.Runner.Turns
use doomtp_bot.Triggers.Timers.{
  World, TimerState, step_timer, step_cron, cron_due, due_at, ready, fire, interval,
}
use doomtp_bot.Triggers.Timers.Spacing

abbrev every_minute : Cron
every_minute = record {
  minutes = 30 ∷ [];
  hours = 18 ∷ [];
  days = 1 ∷ 2 ∷ [];
  months = 6 ∷ [];
  weekdays = 0 ∷ 1 ∷ 2 ∷ 3 ∷ 4 ∷ 5 ∷ 6 ∷ [];
  restricted_day = true;
  restricted_weekday = false;
}

abbrev world : ℕ → World
world lines = record {
  triggers = record {
    scope = none;
    by_channel = ("c", clock_trigger ∷ []) ∷ [];
    crons_by_id = (7, every_minute) ∷ [];
    pack_list = [];
    pack_scopes = [];
  };
  channels = ("c", joined_channel) ∷ [];
  lines = λ channel_id. lines;
  is_live = λ channel_id. true;
  first_jitter = λ t. 0;
  next_jitter = λ t. 0;
  stamp = λ zone. "2026-06-01T18:30";
  moment = λ zone. record {
    minute_of = 30;
    hour_of = 18;
    day_of = 1;
    month_of = 6;
    weekday_from_monday = 0;
  };
}

abbrev waiting : TimerState
waiting = record { next_at = 1000; lines_at_last_run = 0; last_minute = "" }

step_timer-again_example :
    (2000 + 60 * 1000 ≤ 62000)
    × (5 + 10 ≤ 15)
    × (is_joined (some joined_channel) ≡ true)
    × ((true && not true) ≡ false)
unfolding Dict.get
step_timer-again_example =
    Spacing.step_timer-again (world 10) (world 15) 2000 62000 clock_trigger waiting
      (unfold step_timer ready fire interval is_joined in refl)
      (unfold step_timer ready fire interval is_joined in refl)

step_cron-again_example :
    step_cron (world 12) clock_trigger (step_cron (world 10) clock_trigger waiting).0
    ≡ ((step_cron (world 10) clock_trigger waiting).0, false)
step_cron-again_example =
    Spacing.step_cron-again (world 10) (world 12) clock_trigger waiting refl
      (unfold Dict.get in refl)
      (unfold step_cron cron_due due_at Cron.matches ready fire is_joined Dict.get in refl)

abbrev fresh : CooldownTracker
fresh = record { tier = []; user = [] }

show_id : ℕ → String
show_id n = "7"

take_turn-again_example :
    take_turn show_id
      (take_turn show_id fresh 1000 clock_trigger none).0
      20000
      clock_trigger
      (some "u")
    ≡ ((take_turn show_id fresh 1000 clock_trigger none).0, false)
take_turn-again_example =
    Turns.take_turn-again show_id fresh 1000 20000 clock_trigger none (some "u")
      (record { tiers = tt; users = tt })
      (unfold take_turn cooling channel_cooldown_s min_channel_cooldown_s Dict.get state
          Tracker.ready remaining tier_until user_until show_id in
        refl)
      (ground arith) (unfold channel_cooldown_s min_channel_cooldown_s Dict.get in ground arith)
