-- ===== src/Lib.antt =====
-- doomtp-bot: a Twitch chat bot (Python). This library models its policy (who may run what, where and
-- how often), its emote pyramid watcher, its moderation index and AutoMod, what it may do in a channel,
-- who is live, its triggers and timers, how it cuts a reply, the dispatcher through which every domain
-- event reaches these parts, and the runtime that carries out a command line, with its operators, its
-- variables and its executor, and proves what they promise.
--
-- Parts and files:
--   Core/Events: src/doomtp_bot/core/events.py, the chat messages and removals.
--   Watchers/Pyramid: src/doomtp_bot/watchers/pyramid.py. `observe` takes the dictionary of open
--     pyramids and a line to the new dictionary and the events. Rows reads lines, Shape has the
--     invariant, Climb a whole pyramid, Lines what ends one.
--   Core/Capabilities: src/doomtp_bot/core/capabilities.py, the probe, the grants and what is stored; Sets
--     has the theorems by membership.
--   Core/Dispatch: src/doomtp_bot/core/dispatch.py, `handle` from a domain event to the new state and the
--     effects, with RunLog (`should_log_run`), Route (what a line starts) and Keep (what stays valid).
--   Core/Streams: src/doomtp_bot/core/streams.py, `_apply` and `poll`; Live has what they leave.
--   Core/Outbox: src/doomtp_bot/core/outbox.py, `chunk`; Chunks has its bounds. The IndexError
--     of a limit of 0 is none.
--   Core/Schedule: src/doomtp_bot/core/schedule.py, the cache of schedules; Kept has how long it answers.
--   Triggers/Cron, Triggers/Service, Triggers/Runner, Triggers/Timers: src/doomtp_bot/triggers/, cron.py,
--     the queries of service.py, the cooldowns of runner.py and the tick of timers.py, with Bounds, Scope,
--     Turns and Spacing for their theorems.
--   Moderation/Index: src/doomtp_bot/moderation/index.py; Moderation/Automod: moderation/automod.py.
--   Policy/Roles, Policy/Snapshot, Policy/Load: src/doomtp_bot/policy/roles.py and snapshot.py.
--   Policy/Tracker: src/doomtp_bot/policy/cooldowns.py.
--   Policy/Service: src/doomtp_bot/policy/service.py: Toggles, Permission with its theorems in Floor,
--     Cooldowns with Rules and Claims, Chatters with Ranks, Held and Ignores, Callbacks.
--   Runtime/Result, Runtime/Values, Runtime/Ops: src/doomtp_bot/runtime/result.py, values.py and ops.py,
--     the exit codes, the values and the operators. What `apply_binary` and its like raise is an `Outcome`.
--   Runtime/Variables: src/doomtp_bot/runtime/variables.py. Apply has `apply_op` on one value, Session the
--     write buffer of a run (`buffer`, `commit`), Memory the store in memory. Replay, Refinement, Quota and
--     Usage have their theorems.
--   Runtime/Ast: src/doomtp_bot/lang/ast.py. Runtime/Execution: the state of a run and its steps.
--   Runtime/Evaluate, Runtime/Node, Runtime/Bind, Runtime/Executor: src/doomtp_bot/runtime/executor.py:
--     `evaluate` and `expand`, `_eval`, `bind`, and `_invoke` with `substitute`, `template` and `_run_body`.
--     A line reads and writes variables through the session, claims its cooldowns through the policy and
--     calls handlers, which are fields of `Machine`.
--   Runtime/Preflight: src/doomtp_bot/runtime/preflight.py, the receivers of piped input; Input compares
--     them with the executor.
--   Prelude: lists, dictionaries, sorting and text over the native numbers.
--
-- How the code is read: a dictionary is an association list in insertion order, a set a list, and an
-- object with fields a record that a method returns anew. Text is a list of code points where the code
-- walks it, and a native text where it only compares it. Clocks are arguments in whole milliseconds.
-- Loops are recursions on lists or numbers. Three run on fuel: the one that cuts an overlong word has the
-- word's length, which a chunk size of 1 or more never uses up, and the requests of a poll have the
-- number of channels, of which each request takes one at least. An expression is evaluated by recursion
-- on it; the executor takes fuel for each step into a substitution, a template or a custom command's body,
-- and what is said of a line is said of every amount.
--
-- Not modelled: the database (src/doomtp_bot/storage and the repositories), Twitch's API, the web server,
-- asyncio's scheduling, the parser of the expression language, the engine, the walk of its preflight, the
-- casts of values, the arithmetic of floats, the filters' regular expressions, the storing of custom
-- commands, the history import and the chat commands' own wording. Where a modelled part calls one of
-- these, it is an argument of the definitions.
mod Prelude
pub mod Core
pub mod Moderation
pub mod Policy
pub mod Runtime
pub mod Triggers
pub mod Watchers
