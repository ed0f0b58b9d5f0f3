-- ===== src/Watchers/Pyramid/Lines.antt =====
-- What ends a pyramid, and what a line of the bot itself does.
use doomtp_bot.Prelude.{
  ◌≤◌, ◌≡◌, ◌≢◌, refl, true, false, Option, none, some, [], ◌∷◌, arith, leb, nat_eq, string_eq,
  eq_iff, if◌then◌else◌,
}
use doomtp_bot.Prelude.Dict
use doomtp_bot.Prelude.Dict.{get-put, get-remove, get-remove_self}
use doomtp_bot.Core.Events.{ChatMessage}
use doomtp_bot.Watchers.Pyramid.{
  Open, Pyramid, Row, give_up, advance, observe_row, observe, row_of, same_row, start, broken_event,
}

start_self :
    (opened : Open) (msg : ChatMessage) (row : Option Row)
    → msg.is_self ≡ true
    → start opened msg row ≡ opened
unfolding start
start_self opened msg none bot = refl
start_self opened msg (some row) bot = ground arith

-- A line of the bot where no pyramid is open is just a line.
pub observe-self_idle :
    (opened : Open) (msg : ChatMessage)
    → msg.is_self ≡ true
    → Dict.get msg.channel_id opened ≡ none
    → observe opened msg ≡ (opened, [])
unfolding observe observe_row
observe-self_idle opened msg bot idle =
    rw idle (ground (arith, start_self opened msg (row_of msg.text) bot))

same_row-stranger :
    (msg : ChatMessage) (p : Pyramid) (row : Option Row)
    → msg.user_id ≢ p.builder.id
    → same_row msg p row ≡ none
unfolding same_row
same_row-stranger msg p none other = refl
same_row-stranger msg p (some row) other = ground (arith, eq_iff msg.user_id p.builder.id)

-- Another chatter's line ends the pyramid: one with a second row is reported broken by that chatter,
-- one without is forgotten in silence. What stays open is what the line itself starts.
pub observe-stranger :
    (opened : Open) (msg : ChatMessage) (p : Pyramid)
    → Dict.get msg.channel_id opened ≡ some p
    → msg.user_id ≢ p.builder.id
    → observe opened msg ≡ (
      start (Dict.remove msg.channel_id opened) msg (row_of msg.text),
      (if leb 2 p.peak then broken_event p msg ∷ [] else []),
    )
unfolding observe observe_row advance give_up
observe-stranger opened msg p here other =
    rw (here, same_row-stranger msg p (row_of msg.text) other) (ground arith)

-- A line of the bot, which is not the builder, breaks a pyramid that has a second row: the one event
-- says that the bot did it, and nothing is open in the channel afterwards.
pub observe-self_breaks :
    (opened : Open) (msg : ChatMessage) (p : Pyramid)
    → msg.is_self ≡ true
    → Dict.get msg.channel_id opened ≡ some p
    → msg.user_id ≢ p.builder.id
    → 2 ≤ p.peak
    → ((observe opened msg).1 ≡ broken_event p msg ∷ [])
      × ((broken_event p msg).payload.by_bot ≡ true)
      × ((broken_event p msg).payload.self_broken ≡ false)
      × (Dict.get msg.channel_id (observe opened msg).0 ≡ none)
unfolding broken_event
observe-self_breaks opened msg p bot here other wide =
    rw
      (
        observe-stranger opened msg p here other,
        start_self (Dict.remove msg.channel_id opened) msg (row_of msg.text) bot,
      )
      (
        ground arith,
        ground arith,
        ground (arith, eq_iff msg.user_id p.builder.id),
        get-remove_self msg.channel_id opened,
      )
