-- ===== src/Watchers/Pyramid/Tests.antt =====
-- Runs of the pyramid watcher on concrete lines, and the theorems at concrete inputs.
use doomtp_bot.Prelude.{
  ◌≡◌, refl, true, false, none, some, [], ◌∷◌, ◌++◌, arith, Text, eq_iff, string_eq, split,
  split_from, join, is_space,
}
use doomtp_bot.Prelude.Dict
use doomtp_bot.Prelude.Dict.{Entries-empty}
use doomtp_bot.Core.Events.{ChatMessage, Source}
use doomtp_bot.Watchers.Pyramid.{
  Open, Pyramid, row_of, row_of_tokens, is_invisible, observe, observe_row, advance, climb, give_up,
  same_row, start, candidate, event, broken_event,
}
use doomtp_bot.Watchers.Pyramid.Rows
use doomtp_bot.Watchers.Pyramid.Rows.{IsToken, repeated}
use doomtp_bot.Watchers.Pyramid.Shape
use doomtp_bot.Watchers.Pyramid.Shape.{IsValid, observe_all, FromChannel}
use doomtp_bot.Watchers.Pyramid.Climb
use doomtp_bot.Watchers.Pyramid.Climb.{IsRow, Rows, above, below, ups, downs, at_width}
use doomtp_bot.Watchers.Pyramid.Lines

program : Unit {0}
unfolding split split_from join is_space row_of row_of_tokens is_invisible observe observe_row
    advance climb give_up same_row start candidate event broken_event Dict.get Dict.put Dict.remove
    observe_all repeated
program = tt

abbrev lul : Text
lul = 76 ∷ 85 ∷ 76 ∷ []

-- A line of the builder.
abbrev line : Text → ChatMessage
line text = record {
  message_id = "m1";
  channel_id = "c";
  channel_login = "chan";
  user_id = "u";
  user_login = "ann";
  display_name = "Ann";
  text = text;
  sent_at = 5;
  badges = [];
  reply_parent_id = none;
  reply_parent_user_id = none;
  reply_parent_login = none;
  reply_parent_display = none;
  is_self = false;
  source = Source.eventsub;
}

-- A line of the bot.
abbrev bot_line : ChatMessage
bot_line = record (line lul) { user_id = "bot"; is_self = true }

abbrev idle : Open
idle = []

abbrev one : Text
one = lul

abbrev two : Text
two = lul ++ (32 ∷ lul)

rows_read :
    (row_of two ≡ some (record { token = lul; count = 2 }))
    × (row_of (lul ++ (32 ∷ 8203 ∷ lul)) ≡ some (record { token = lul; count = 2 }))
    × (row_of (lul ++ (32 ∷ 76 ∷ [])) ≡ none)
unfolding program
rows_read = (refl, refl, refl)

abbrev wide : Pyramid
wide = record (candidate (line one) lul) { width = 2; peak = 2 }

abbrev open_wide : Open
open_wide = ("c", wide) ∷ []

open_wide-run : (observe_all [] (line one ∷ line two ∷ [])).0 ≡ open_wide
unfolding program
open_wide-run = refl

lul-IsToken : IsToken lul
unfolding program
lul-IsToken = record {
  word = (refl, (refl, (refl, tt)));
  visible = (refl, (refl, (refl, tt)));
  proper = λ e. cc e;
}

row_of-join_example : row_of (join (repeated 2 lul)) ≡ some (record { token = lul; count = 2 })
row_of-join_example = Rows.row_of-join 1 lul lul-IsToken

observe_all-IsValid_example : IsValid (observe_all [] (line one ∷ line two ∷ [])).0
observe_all-IsValid_example = Shape.observe_all-IsValid [] (line one ∷ line two ∷ []) Entries-empty

observe-self_idle_example : observe [] bot_line ≡ ([], [])
unfolding program
observe-self_idle_example = Lines.observe-self_idle [] bot_line refl refl

line-IsRow : IsRow "c" "u" lul 1 (line one)
unfolding program
line-IsRow = record { channel = refl; chatter = refl; row = refl }

two-IsRow : IsRow "c" "u" lul 2 (line two)
unfolding program
two-IsRow = record { channel = refl; chatter = refl; row = refl }

observe_all-pyramid_example :
    ((observe_all [] (line one ∷ line two ∷ line one ∷ [])).1
      ≡ ups (candidate (line one) lul) 1 ++ downs (at_width (candidate (line one) lul) 2) 1)
    × (Dict.get "c" (observe_all [] (line one ∷ line two ∷ line one ∷ [])).0 ≡ none)
unfolding above below Dict.get
observe_all-pyramid_example =
    Climb.observe_all-pyramid "c" "u" lul 0 [] (line one) (line two ∷ []) (line one ∷ []) refl refl
      line-IsRow (two-IsRow, tt) (line-IsRow, tt)

observe-other_example :
    (Dict.get "d"
        (observe
          (observe_all [] (line one ∷ line two ∷ [])).0
          (record (line one) { user_id = "v" })).0
      ≡ Dict.get "d" (observe_all [] (line one ∷ line two ∷ [])).0)
    × FromChannel "c"
        (observe
          (observe_all [] (line one ∷ line two ∷ [])).0
          (record (line one) { user_id = "v" })).1
observe-other_example =
    Shape.observe-other (observe_all [] (line one ∷ line two ∷ [])).0
      (record (line one) { user_id = "v" }) "d"
      (Shape.observe_all-IsValid [] (line one ∷ line two ∷ []) Entries-empty)
      (ground (arith, eq_iff "c" "d"))
