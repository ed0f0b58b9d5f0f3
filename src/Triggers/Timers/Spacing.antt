-- ===== src/Triggers/Timers/Spacing.antt =====
-- How far apart a timer's firings are, and how often a cron fires in a minute.
use doomtp_bot.Prelude.{
  ℕ, ◌+◌, ◌*◌, ◌≤◌, ◌≡◌, refl, true, false, not, ◌&&◌, arith, nat_eq, string_eq, Option-cases, inl,
  inr, beq_refl,
}
use doomtp_bot.Prelude.Dict
use doomtp_bot.Core.Dispatch.{is_joined}
use doomtp_bot.Triggers.Cron.{Cron}
use doomtp_bot.Triggers.Service.{Trigger}
use doomtp_bot.Triggers.Timers.{
  TimerState, World, interval, ready, fire, step_timer, step_cron, due_at, cron_due, timezone_of,
}

-- A timer that fired fires again only after its interval, when its channel had the lines that it asks for
-- since, and only in a joined channel, live where the timer wants that.
pub step_timer-again :
    (w w' : World) (now later : ℕ) (t : Trigger) (state : TimerState)
    → (step_timer w now t state).1 ≡ true
    → (step_timer w' later t (step_timer w now t state).0).1 ≡ true
    → (now + t.schedule.every_s * 1000 ≤ later)
      × (t.schedule.min_chat_lines + w.lines t.channel_id ≤ w'.lines t.channel_id)
      × (is_joined (Dict.get t.channel_id w'.channels) ≡ true)
      × ((t.schedule.only_live && not (w'.is_live t.channel_id)) ≡ false)
unfolding step_timer ready fire interval
step_timer-again w w' now later t state first again = ground (arith, first, again)

due_at-again :
    (w w' : World) (schedule : Cron) (t : Trigger) (state state' : TimerState)
    → w'.stamp (timezone_of (Dict.get t.channel_id w'.channels))
      ≡ w.stamp (timezone_of (Dict.get t.channel_id w.channels))
    → (due_at w schedule t state).1 ≡ true
    → state'.last_minute ≡ (due_at w schedule t state).0.last_minute
    → due_at w' schedule t state' ≡ (state', false)
unfolding due_at
due_at-again w w' schedule t state state' same due kept =
    let zone' = timezone_of (Dict.get t.channel_id w'.channels) in
    let e : state'.last_minute ≡ w'.stamp zone' = ground (arith, same, due, kept) in
    ground (arith, e, beq_refl (w'.stamp zone'))

cron_due-again :
    (w w' : World) (t : Trigger) (state state' : TimerState)
    → Dict.get t.id w'.triggers.crons_by_id ≡ Dict.get t.id w.triggers.crons_by_id
    → w'.stamp (timezone_of (Dict.get t.channel_id w'.channels))
      ≡ w.stamp (timezone_of (Dict.get t.channel_id w.channels))
    → (cron_due w t state).1 ≡ true
    → state'.last_minute ≡ (cron_due w t state).0.last_minute
    → cron_due w' t state' ≡ (state', false)
unfolding cron_due
cron_due-again w w' t state state' tables same due kept =
    elim (Option-cases (Dict.get t.id w.triggers.crons_by_id)) [
      | inl absent ↦ absurd (ground (arith, absent, due))
      | inr (schedule, found) ↦
          rw (cron_due, tables, found)
            (due_at-again w w' schedule t state state' same (ground (arith, found, due))
              (ground (arith, found, kept)))
    ]

cron_fired :
    (w : World) (t : Trigger) (state : TimerState)
    → (step_cron w t state).1 ≡ true
    → ((cron_due w t state).1 ≡ true) × ((step_cron w t state).0 ≡ fire w t (cron_due w t state).0)
unfolding step_cron
cron_fired w t state fired = ground (arith, fired)

-- A cron that fired in a local minute does not fire again in it, and the second look changes nothing,
-- while the trigger keeps its schedule.
pub step_cron-again :
    (w w' : World) (t : Trigger) (state : TimerState)
    → Dict.get t.id w'.triggers.crons_by_id ≡ Dict.get t.id w.triggers.crons_by_id
    → w'.stamp (timezone_of (Dict.get t.channel_id w'.channels))
      ≡ w.stamp (timezone_of (Dict.get t.channel_id w.channels))
    → (step_cron w t state).1 ≡ true
    → step_cron w' t (step_cron w t state).0 ≡ ((step_cron w t state).0, false)
step_cron-again w w' t state tables same fired =
    let (due, moved) = cron_fired w t state fired in
    rw moved (
      not_due (fire w t (cron_due w t state).0) (
        cron_due-again w w' t state (fire w t (cron_due w t state).0) tables same due
          (unfold fire in refl)))
  where
    not_due : (s : TimerState) → cron_due w' t s ≡ (s, false) → step_cron w' t s ≡ (s, false)
    not_due s h = unfold step_cron in ground (arith, h)
