-- ===== src/Triggers/Samples.antt =====
-- A trigger, for the tests of the other modules.
use doomtp_bot.Prelude.{true, none}
use doomtp_bot.Core.Dispatch.RunLog.{output}
use doomtp_bot.Triggers.Service.{Trigger}

abbrev pub clock_trigger : Trigger
clock_trigger = record {
  id = 7;
  channel_id = "c";
  type = "timer";
  conditions = record { reward_id = none; min_viewers = none; min_bits = none; min_months = none };
  schedule = record { every_s = 60; jitter_s = 0; only_live = true; min_chat_lines = 5 };
  expr = "echo hi";
  run_as_rank = 0;
  enabled = true;
  log_level = output;
  created_by = "u";
  pack = none;
  pack_key = "";
  pack_id = none;
  cooldown_s = 30;
  user_cooldown_s = 0;
}
