-- ===== src/Triggers/Service/Tests.antt =====
-- A service with one pack, and the theorem at it.
use doomtp_bot.Prelude.{some, [], ◌∷◌}
use doomtp_bot.Core.Samples.{moderated}
use doomtp_bot.Triggers.Samples.{clock_trigger}
use doomtp_bot.Triggers.Service.{TriggerService}

abbrev one_pack : TriggerService
one_pack = record {
  scope = some moderated;
  by_channel = [];
  crons_by_id = [];
  pack_list =
      record clock_trigger { channel_id = "*"; pack = some "greetings"; pack_id = some "p" } ∷ [];
  pack_scopes = ("p", "c" ∷ []) ∷ [];
}
