-- ===== src/Watchers/Pyramid/Shape.antt =====
-- The shape of an open pyramid, and that one line concerns its own channel alone.
use doomtp_bot.Prelude.{
  ℕ, ◌+◌, ◌≤◌, ◌<◌, String, ◌≡◌, ◌≢◌, refl, sym, inl, inr, true, false, not, ◌&&◌, Option, none,
  some, List, [], ◌∷◌, ◌++◌, arith, eqb, leb, ◌==◌, nat_eq, string_eq, eq_iff, All, Bool-cases,
  Option-cases,
}
use doomtp_bot.Prelude.Dict
use doomtp_bot.Prelude.Dict.{
  get-put, get-remove, Entries, Entries-empty, Entries-put, Entries-remove,
}
use doomtp_bot.Core.Events.{ChatMessage}
use doomtp_bot.Watchers.Pyramid.{
  Open, Pyramid, WatchEvent, Row, start, climb, give_up, advance, observe_row, observe, candidate,
  row_of, same_row, event, broken_event,
}

-- A pyramid stands under its channel; its row is between the first one and the widest; it is at its
-- widest until it falls; a falling one had a second row and is not back at the first.
pub record IsSound (channel : String) (p : Pyramid) : Type 0 where
  pub filed : p.channel_id ≡ channel
  pub standing : 1 ≤ p.width
  pub within : p.width ≤ p.peak
  pub rising : p.falling ≡ false → p.width ≡ p.peak
  pub sinking : p.falling ≡ true → (2 ≤ p.width) × (p.width < p.peak)

abbrev pub IsValid : Open → Type 0
IsValid opened = Entries IsSound opened

start-IsValid :
    (opened : Open) (msg : ChatMessage) (row : Option Row)
    → IsValid opened
    → IsValid (start opened msg row)
unfolding start candidate
start-IsValid opened msg none v = v
start-IsValid opened msg (some row) v = elim (Bool-cases (eqb row.count 1 && not msg.is_self)) [
  | inl opens ↦ rw opens (Entries-put msg.channel_id _ opened v (ground arith))
  | inr stays ↦ rw stays v
]

give_up-IsValid :
    (opened : Open) (msg : ChatMessage) (p : Pyramid) (row : Option Row)
    → IsValid opened
    → IsValid (give_up opened msg p row).0
unfolding give_up
give_up-IsValid opened msg p row v =
    let closed = start-IsValid _ msg row (Entries-remove msg.channel_id opened v) in
    elim (Bool-cases (leb 2 p.peak)) [ inl wide ↦ rw wide closed | inr narrow ↦ rw narrow closed ]

climb-IsValid :
    (opened : Open) (msg : ChatMessage) (p : Pyramid) (row : Option Row) (n : ℕ)
    → IsValid opened
    → IsSound msg.channel_id p
    → IsValid (climb opened msg p row n).0
unfolding climb
climb-IsValid opened msg p row n v s = elim (Bool-cases (not p.falling && eqb n (p.width + 1))) [
  | inl rises ↦ rw rises (Entries-put msg.channel_id _ opened v (ground arith))
  | inr steady ↦ rw steady (elim (Bool-cases (leb 2 p.peak && eqb (n + 1) p.width)) [
    | inl falls ↦ rw falls (elim (Bool-cases (eqb n 1)) [
      | inl last ↦ rw last (Entries-remove msg.channel_id opened v)
      | inr more ↦ rw more (Entries-put msg.channel_id _ opened v (ground arith))
    ])
    | inr stops ↦ rw stops (give_up-IsValid opened msg p row v)
  ])
]

advance-IsValid :
    (opened : Open) (msg : ChatMessage) (p : Pyramid) (row : Option Row) (same : Option ℕ)
    → IsValid opened
    → IsSound msg.channel_id p
    → IsValid (advance opened msg p row same).0
unfolding advance
advance-IsValid opened msg p row (some n) v s = climb-IsValid opened msg p row n v s
advance-IsValid opened msg p row none v s = give_up-IsValid opened msg p row v

observe_row-IsValid :
    (opened : Open) (msg : ChatMessage) (row : Option Row) (found : Option Pyramid)
    → found ≡ Dict.get msg.channel_id opened
    → IsValid opened
    → IsValid (observe_row opened msg row found).0
unfolding observe_row
observe_row-IsValid opened msg row none e v = start-IsValid opened msg row v
observe_row-IsValid opened msg row (some p) e v =
    advance-IsValid opened msg p row (same_row msg p row) v (v.at msg.channel_id p (sym e))

pub observe-IsValid :
    (opened : Open) (msg : ChatMessage) → IsValid opened → IsValid (observe opened msg).0
unfolding observe
observe-IsValid opened msg v = observe_row-IsValid opened msg (row_of msg.text) _ refl v

-- The watcher over a sequence of lines, with every event in order.
unfoldable pub observe_all : Open → List ChatMessage → Open × List WatchEvent
observe_all opened [] = (opened, [])
observe_all opened (msg ∷ msgs) =
    let (next, events) = observe opened msg in
    let (last, later) = observe_all next msgs in (last, events ++ later)

-- From the start, and after any lines, every open pyramid is sound.
pub observe_all-IsValid :
    (opened : Open) (msgs : List ChatMessage) → IsValid opened → IsValid (observe_all opened msgs).0
unfolding observe_all
observe_all-IsValid opened [] v = v
observe_all-IsValid opened (msg ∷ msgs) v =
    observe_all-IsValid (observe opened msg).0 msgs (observe-IsValid opened msg v)

-- A line leaves what is open in any other channel alone.
module _ (opened : Open) (msg : ChatMessage) (c : String)
    (other : (msg.channel_id == c) ≡ false) where
  get-start : (row : Option Row) → Dict.get c (start opened msg row) ≡ Dict.get c opened
  unfolding start
  get-start none = refl
  get-start (some row) = ground (arith, get-put msg.channel_id c (candidate msg row.token) opened)

get-give_up :
    (opened : Open) (msg : ChatMessage) (c : String) (p : Pyramid) (row : Option Row)
    → (msg.channel_id == c) ≡ false
    → Dict.get c (give_up opened msg p row).0 ≡ Dict.get c opened
unfolding give_up
get-give_up opened msg c p row other = ground (
  arith,
  get-start (Dict.remove msg.channel_id opened) msg c other row,
  get-remove msg.channel_id c opened,
)

get-climb :
    (opened : Open) (msg : ChatMessage) (c : String) (p : Pyramid) (row : Option Row) (n : ℕ)
    → (msg.channel_id == c) ≡ false
    → Dict.get c (climb opened msg p row n).0 ≡ Dict.get c opened
unfolding climb
get-climb opened msg c p row n other = ground (
  arith,
  get-give_up opened msg c p row other,
  get-remove msg.channel_id c opened,
  get-put msg.channel_id c (record p { width = n; peak = n }) opened,
  get-put msg.channel_id c (record p { width = n; falling = true }) opened,
)

-- Every event stands for the channel of the line that made it.
abbrev pub FromChannel : String → List WatchEvent → Type 0
FromChannel c = All (λ e. e.channel_id ≡ c)

FromChannel-observe_row :
    (opened : Open) (msg : ChatMessage) (row : Option Row) (found : Option Pyramid)
    → found ≡ Dict.get msg.channel_id opened
    → IsValid opened
    → FromChannel msg.channel_id (observe_row opened msg row found).1
unfolding observe_row advance climb give_up event broken_event
FromChannel-observe_row opened msg row none e v = tt
FromChannel-observe_row opened msg row (some p) e v =
    let sound = (v.at msg.channel_id p (sym e)).filed in
    elim (Option-cases (same_row msg p row)) [
      | inl stranger ↦ rw stranger (ground arith)
      | inr (n, same) ↦ rw same (ground arith)
    ]

get-observe_row :
    (opened : Open) (msg : ChatMessage) (c : String) (row : Option Row) (found : Option Pyramid)
    → (msg.channel_id == c) ≡ false
    → Dict.get c (observe_row opened msg row found).0 ≡ Dict.get c opened
unfolding observe_row advance
get-observe_row opened msg c row none other = get-start opened msg c other row
get-observe_row opened msg c row (some p) other = elim (Option-cases (same_row msg p row)) [
  | inl stranger ↦ rw stranger (get-give_up opened msg c p row other)
  | inr (n, same) ↦ rw same (get-climb opened msg c p row n other)
]

-- A line changes nothing in another channel, and every event it makes is for its own channel.
pub observe-other :
    (opened : Open) (msg : ChatMessage) (c : String)
    → IsValid opened
    → msg.channel_id ≢ c
    → (Dict.get c (observe opened msg).0 ≡ Dict.get c opened)
      × FromChannel msg.channel_id (observe opened msg).1
unfolding observe
observe-other opened msg c v other = (
  get-observe_row opened msg c (row_of msg.text) _ (ground (arith, eq_iff msg.channel_id c)),
  FromChannel-observe_row opened msg (row_of msg.text) _ refl v,
)
