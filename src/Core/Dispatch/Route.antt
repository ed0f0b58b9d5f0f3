-- ===== src/Core/Dispatch/Route.antt =====
-- Which task a chat line starts.
use doomtp_bot.Prelude.{
  ℕ, ◌≤◌, ◌+◌, ◌≡◌, refl, Bool, true, false, not, ◌&&◌, ◌||◌, Option, none, some, List, [], ◌∷◌,
  ◌++◌, arith, any, keep, length, string_eq, contains, points, if◌then◌else◌, is_some,
}
use doomtp_bot.Core.Events.{ChatMessage, badge_ids}
use doomtp_bot.Moderation.Automod.{Verdict}
use doomtp_bot.Policy.Snapshot.{ChannelSettings}
use doomtp_bot.Policy.Service.Chatters.{is_ignored, ignored_only_by_self}
use doomtp_bot.Watchers.Pyramid.{Open, WatchEvent, observe}
use doomtp_bot.Core.Dispatch.{
  Services, Dispatcher, Effect, follow_rename, log_message, log_notification, log_moderation, spawn,
  run, listeners, enforce, watch_triggers, notification_triggers, stream_triggers, settings_of,
  is_active, prefix_in, is_unignore_me, renamed, logged, watch, watched, verdict_on, judged, route,
  admit, message, bot_badge, watch_work,
}

-- The chatter's line starts a run, or the listeners, or its own deletion.
abbrev pub is_run : Effect → Bool
is_run (spawn (run msg)) = true
is_run (spawn (listeners msg)) = false
is_run (spawn (enforce msg v)) = false
is_run (spawn (watch_triggers login events)) = false
is_run (spawn (notification_triggers id channel_id)) = false
is_run (spawn (stream_triggers channel_id live)) = false
is_run (follow_rename channel_id login) = false
is_run (log_message msg is_command) = false
is_run (log_notification id channel_id) = false
is_run (log_moderation event) = false

abbrev pub is_reaction : Effect → Bool
is_reaction (spawn (run msg)) = true
is_reaction (spawn (listeners msg)) = true
is_reaction (spawn (enforce msg v)) = true
is_reaction (spawn (watch_triggers login events)) = false
is_reaction (spawn (notification_triggers id channel_id)) = false
is_reaction (spawn (stream_triggers channel_id live)) = false
is_reaction (follow_rename channel_id login) = false
is_reaction (log_message msg is_command) = false
is_reaction (log_notification id channel_id) = false
is_reaction (log_moderation event) = false

any-append {ℓ} :
    {A : Type ℓ} (p : A → Bool) (xs ys : List A) → any p (xs ++ ys) ≡ (any p xs || any p ys)
any-append p [] ys = refl
any-append p (x ∷ xs) ys = ground (arith, any-append p xs ys)

length-keep-append {ℓ} :
    {A : Type ℓ} (p : A → Bool) (xs ys : List A)
    → length (keep p (xs ++ ys)) ≡ length (keep p xs) + length (keep p ys)
length-keep-append p [] ys = omega arith
length-keep-append p (x ∷ xs) ys = ground (arith, length-keep-append p xs ys)

-- Effects that log or watch.
abbrev Quiet : List Effect → Type 0
Quiet effects = length (keep is_reaction effects) ≡ 0

renamed-Quiet :
    (env : Services) (settings : Option ChannelSettings) (msg : ChatMessage)
    → Quiet (renamed env settings msg)
unfolding renamed
renamed-Quiet env none msg = refl
renamed-Quiet env (some settings) msg = ground arith

logged-Quiet :
    (settings : Option ChannelSettings) (msg : ChatMessage) (c : Bool)
    → Quiet (logged settings msg c)
unfolding logged
logged-Quiet none msg c = refl
logged-Quiet (some settings) msg c = ground arith

watch_work-Quiet : (msg : ChatMessage) (events : List WatchEvent) → Quiet (watch_work msg events)
watch_work-Quiet msg [] = refl
watch_work-Quiet msg (e ∷ es) = refl

watched-Quiet : (env : Services) (msg : ChatMessage) (w : Option Open) → Quiet (watched env msg w).1
unfolding watched watch
watched-Quiet env msg none = refl
watched-Quiet env msg (some opened) = ground (arith, watch_work-Quiet msg (observe opened msg).1)

run_reacts : (e : Effect) → is_run e ≡ true → is_reaction e ≡ true
run_reacts (spawn (run msg)) h = refl
run_reacts (spawn (listeners msg)) h = refl
run_reacts (spawn (enforce msg v)) h = refl
run_reacts (spawn (watch_triggers login events)) h = h
run_reacts (spawn (notification_triggers id channel_id)) h = h
run_reacts (spawn (stream_triggers channel_id live)) h = h
run_reacts (follow_rename channel_id login) h = h
run_reacts (log_message msg is_command) h = h
run_reacts (log_notification id channel_id) h = h
run_reacts (log_moderation event) h = h

any-Quiet : (effects : List Effect) → Quiet effects → any is_run effects ≡ false
any-Quiet [] h = refl
any-Quiet (e ∷ es) h = ground (arith, h, run_reacts e, any-Quiet es)

module _ (env : Services) (d : Dispatcher) (now : ℕ) (msg : ChatMessage) where
  -- The line is read as a command, under the channel's prefix.
  abbrev pub reads_as_command : Bool
  reads_as_command = env.looks_like_command msg (prefix_in env (settings_of d msg.channel_id))

  abbrev pub asks_unignore : Bool
  asks_unignore =
      is_unignore_me env.lower msg.text (points (prefix_in env (settings_of d msg.channel_id)))

  -- Who may start a run, by what the line is and what stands against it.
  abbrev pub may_run : Bool
  may_run =
      if is_ignored d.policy msg.channel_id msg.user_id
      then asks_unignore && ignored_only_by_self d.policy msg.channel_id msg.user_id
      else reads_as_command && not (is_some (verdict_on env d now msg))

  judged-run :
      (c : Bool) (v : Option Verdict) → any is_run (judged msg c v) ≡ (c && not (is_some v))
  unfolding judged
  judged-run c none = ground arith
  judged-run c (some v) = ground arith

  judged_one : (c : Bool) (v : Option Verdict) → length (keep is_reaction (judged msg c v)) ≤ 1
  unfolding judged
  judged_one c none = ground arith
  judged_one c (some v) = ground arith

  route-run :
      any is_run
        (route env d now msg (prefix_in env (settings_of d msg.channel_id)) reads_as_command)
      ≡ (not msg.is_self && not (contains bot_badge (badge_ids msg)) && may_run)
  unfolding route
  route-run = ground (arith, judged-run reads_as_command (verdict_on env d now msg))

  route_one :
      length (
        keep is_reaction
          (route env d now msg (prefix_in env (settings_of d msg.channel_id)) reads_as_command))
      ≤ 1
  unfolding route
  route_one = ground (arith, judged_one reads_as_command (verdict_on env d now msg))

  -- A line starts a run exactly if it stands in a joined channel, is neither the bot's nor another
  -- verified bot's, and either is a command of somebody who is not ignored and whom AutoMod leaves alone,
  -- or takes back an ignore that the chatter alone put on themselves.
  pub message-run : any is_run (message env d now msg).1 ≡ (
      is_active d msg.channel_id
      && not msg.is_self
      && not (contains bot_badge (badge_ids msg))
      && may_run)
  unfolding message admit
  message-run =
      let settings = settings_of d msg.channel_id in
      ground (
        arith,
        any-append is_run (renamed env settings msg) (
            logged settings msg reads_as_command
            ++ ((watched env msg d.watcher).1
                ++ route env d now msg (prefix_in env settings) reads_as_command)),
        any-append is_run (logged settings msg reads_as_command) (
            (watched env msg d.watcher).1
            ++ route env d now msg (prefix_in env settings) reads_as_command),
        any-append is_run (watched env msg d.watcher).1
            (route env d now msg (prefix_in env settings) reads_as_command),
        any-Quiet (renamed env settings msg) (renamed-Quiet env settings msg),
        any-Quiet (logged settings msg reads_as_command)
            (logged-Quiet settings msg reads_as_command),
        any-Quiet (watched env msg d.watcher).1 (watched-Quiet env msg d.watcher),
        route-run,
      )

  -- A line starts at most one of a run, the listeners and AutoMod's action on it.
  pub message_one : length (keep is_reaction (message env d now msg).1) ≤ 1
  unfolding message admit
  message_one =
      let settings = settings_of d msg.channel_id in
      ground (
        arith,
        length-keep-append is_reaction (renamed env settings msg) (
            logged settings msg reads_as_command
            ++ ((watched env msg d.watcher).1
                ++ route env d now msg (prefix_in env settings) reads_as_command)),
        length-keep-append is_reaction (logged settings msg reads_as_command) (
            (watched env msg d.watcher).1
            ++ route env d now msg (prefix_in env settings) reads_as_command),
        length-keep-append is_reaction (watched env msg d.watcher).1
            (route env d now msg (prefix_in env settings) reads_as_command),
        renamed-Quiet env settings msg,
        logged-Quiet settings msg reads_as_command,
        watched-Quiet env msg d.watcher,
        route_one,
      )
