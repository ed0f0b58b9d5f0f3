-- ===== src/Triggers/Timers.antt =====
-- triggers/timers.py: the scheduler of timers and crons. The loop's clock is in milliseconds; a channel's
-- local minute (`wall_now` and `strftime`), the live channels, and the random jitter are arguments.
-- A firing is the trigger in the list that a tick returns; what it runs is not modelled here.

pub mod Spacing
mod Tests
use doomtp_bot.Prelude.{
  ℕ, ◌+◌, ◌*◌, String, Bool, true, false, not, ◌&&◌, ◌||◌, Option, none, some, List, [], ◌∷◌, ◌++◌,
  leb, ltb, ◌==◌, nat_eq, string_eq, pair_eq, or_default, if◌then◌else◌,
}
use doomtp_bot.Prelude.Dict
use doomtp_bot.Prelude.Dict.{Dict}
use doomtp_bot.Policy.Snapshot.{ChannelSettings}
use doomtp_bot.Core.Dispatch.{is_joined}
use doomtp_bot.Triggers.Cron
use doomtp_bot.Triggers.Cron.{Moment}
use doomtp_bot.Triggers.Service.{Trigger, TriggerService, timers, crons}

pub record TimerState : Type 0 where
  pub next_at : ℕ
  pub lines_at_last_run : ℕ
  pub last_minute : String

abbrev pub States : Type 0
States = Dict (ℕ × String) TimerState

-- What a tick reads of the world. A tick draws a timer's jitter once for a new state, which Python
-- throws away where there is a state, and once more when it fires.
pub record World : Type 0 where
  pub triggers : TriggerService
  pub channels : Dict String ChannelSettings
  -- ChatActivity.lines
  pub lines : String → ℕ
  -- _is_live
  pub is_live : String → Bool
  -- rng.uniform(0, jitter_s), in milliseconds
  pub first_jitter : Trigger → ℕ
  pub next_jitter : Trigger → ℕ
  -- the stamp of the local minute in a timezone, and what a schedule reads of it
  pub stamp : String → String
  pub moment : String → Moment

abbrev pub state_key : Trigger → ℕ × String
state_key t = (t.id, t.channel_id)

-- _interval
unfoldable pub interval : ℕ → Trigger → ℕ
interval jitter t = t.schedule.every_s * 1000 + jitter

-- _ready: `lines - lines_at_last_run >= needed`, with the sum on the other side
unfoldable pub ready : World → Trigger → TimerState → Bool
ready w t state =
    if not (is_joined (Dict.get t.channel_id w.channels))
    then false
    else if t.schedule.only_live && not (w.is_live t.channel_id)
    then false
    else leb (t.schedule.min_chat_lines + state.lines_at_last_run) (w.lines t.channel_id)

-- _fire, without the run
unfoldable pub fire : World → Trigger → TimerState → TimerState
fire w t state = record state { lines_at_last_run = w.lines t.channel_id }

abbrev pub new_timer : World → ℕ → Trigger → TimerState
new_timer w now t = record {
  next_at = now + interval (w.first_jitter t) t;
  lines_at_last_run = 0;
  last_minute = "";
}

abbrev pub new_cron : TimerState
new_cron = record { next_at = 0; lines_at_last_run = 0; last_minute = "" }

-- One pass of the loop over the timers, from the timer's state.
unfoldable pub step_timer : World → ℕ → Trigger → TimerState → TimerState × Bool
step_timer w now t state =
    if ltb now state.next_at || not (ready w t state)
    then (state, false)
    else (fire w t (record state { next_at = now + interval (w.next_jitter t) t }), true)

abbrev pub timezone_of : Option ChannelSettings → String
timezone_of none = "UTC"
timezone_of (some settings) = settings.timezone

-- _cron_due, for a trigger that has a schedule
unfoldable pub due_at : World → Cron.Cron → Trigger → TimerState → TimerState × Bool
due_at w schedule t state =
    let zone = timezone_of (Dict.get t.channel_id w.channels) in
    if (state.last_minute == w.stamp zone) || not (Cron.matches schedule (w.moment zone))
    then (state, false)
    else (record state { last_minute = w.stamp zone }, true)

unfoldable pub cron_due : World → Trigger → TimerState → TimerState × Bool
cron_due w t state = elim (Dict.get t.id w.triggers.crons_by_id) [
  | none ↦ (state, false)
  | some schedule ↦ due_at w schedule t state
]

-- One pass of the loop over the crons, from the cron's state.
unfoldable pub step_cron : World → Trigger → TimerState → TimerState × Bool
step_cron w t state =
    let (marked, due) = cron_due w t state in
    if not due || not (ready w t marked) then (marked, false) else (fire w t marked, true)

-- A pass over triggers: each one's state is set by default, stepped and kept.
module _ (default : Trigger → TimerState) (step : Trigger → TimerState → TimerState × Bool) where
  unfoldable pub pass : States → List Trigger → States × List Trigger
  pass states [] = (states, [])
  pass states (t ∷ ts) =
      let (after, fired) = step t (or_default (Dict.get (state_key t) states) (default t)) in
      let (states', more) = pass (Dict.put (state_key t) after states) ts in
      (states', (if fired then t ∷ more else more))

-- tick
unfoldable pub tick : World → ℕ → States → States × List Trigger
tick w now states =
    let (states', fired) = pass (new_timer w now) (step_timer w now) states (timers w.triggers) in
    let (states'', more) = pass (λ t. new_cron) (step_cron w) states' (crons w.triggers) in
    (states'', fired ++ more)
