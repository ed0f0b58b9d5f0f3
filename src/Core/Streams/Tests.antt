-- ===== src/Core/Streams/Tests.antt =====
-- A channel that comes and one that goes, and the theorem at them.
use doomtp_bot.Prelude.{
  String, ◌≡◌, refl, true, false, Option, none, some, List, [], ◌∷◌, string_eq,
}
use doomtp_bot.Prelude.Dict
use doomtp_bot.Core.Streams.{
  Streams, StreamInfo, is_live, apply, add_live, drop_gone, gone, poll, poll_of, fetch_all, update,
}
use doomtp_bot.Core.Streams.Live

abbrev chess : StreamInfo
chess = record { title = "t"; game = "chess"; viewers = 3; started_at = none }

abbrev one_live : Streams
one_live = ("a", chess) ∷ []

abbrev answers : List String → Option Streams
answers ids = some (("b", chess) ∷ [])

came_and_went : poll answers 9 ("a" ∷ "b" ∷ []) one_live ≡ (
  ("b", chess) ∷ [],
  record { channel_id = "b"; live = true; at = 9 }
      ∷ record { channel_id = "a"; live = false; at = 9 }
      ∷ [],
)
unfolding poll poll_of fetch_all update apply add_live drop_gone gone is_live Dict.get Dict.put
    Dict.remove
came_and_went = refl

is_live-apply_example :
    is_live (apply 9 (("b", chess) ∷ []) ("a" ∷ "b" ∷ []) one_live).0 "a" ≡ false
unfolding is_live Dict.get
is_live-apply_example = Live.is_live-apply 9 (("b", chess) ∷ []) ("a" ∷ "b" ∷ []) one_live "a"
