-- ===== src/Watchers/Pyramid.antt =====
-- watchers/pyramid.py: emote pyramids. `_open` is a dictionary from a channel to its open pyramid,
-- `observe` returns the new dictionary and the events. The payload of an event is a record in place
-- of the JSON dictionary; the keys that only `broken` adds are in `breaker`.
pub mod Rows
pub mod Shape
pub mod Climb
pub mod Lines
mod Tests
use doomtp_bot.Prelude.{
  ℕ, ◌+◌, String, Bool, true, false, not, ◌&&◌, Option, none, some, List, [], ◌∷◌, Text, split, eqb,
  leb, ◌==◌, nat_eq, string_eq, list_eq, if◌then◌else◌, keep, all, any, length,
}
use doomtp_bot.Prelude.Dict
use doomtp_bot.Prelude.Dict.{Dict}
use doomtp_bot.Core.Events.{ChatMessage, badge_ids}

-- `_INVISIBLE`: U+E0000, U+034F, U+200B to U+200D, U+2060
unfoldable pub is_invisible : ℕ → Bool
is_invisible c = any (λ x. eqb x c) (917504 ∷ 847 ∷ 8203 ∷ 8204 ∷ 8205 ∷ 8288 ∷ [])

-- A row: the token and how often it stands there.
pub record Row : Type 0 where
  pub token : Text
  pub count : ℕ

-- A lone U+FE0F.
abbrev pub selector : Text
selector = 65039 ∷ []

unfoldable pub row_of_tokens : List Text → Option Row
row_of_tokens [] = none
row_of_tokens (t ∷ ts) =
    if all (λ x. x == t) ts then some (record { token = t; count = length (t ∷ ts) }) else none

unfoldable pub row_of : Text → Option Row
unfolding row_of_tokens
row_of text =
    row_of_tokens (keep (λ t. not (t == selector)) (split (keep (λ c. not (is_invisible c)) text)))

pub record Person : Type 0 where
  pub id : String
  pub name : String
  pub display : String

pub record Pyramid : Type 0 where
  pub channel_id : String
  pub id : String
  pub builder : Person
  pub badges : List String
  pub token : Text
  pub width : ℕ
  pub peak : ℕ
  pub falling : Bool

pub data Phase : Type 0 where
  step complete broken : Phase

pub data Direction : Type 0 where
  nowhere up down : Direction

pub record Payload : Type 0 where
  pub pyramid_id : String
  pub phase : Phase
  pub direction : Direction
  pub token : Text
  pub width : ℕ
  pub peak : ℕ
  pub user : Person
  pub breaker : Option Person
  pub by_bot : Bool
  pub self_broken : Bool

pub record WatchEvent : Type 0 where
  pub channel_id : String
  pub payload : Payload
  pub user : Person
  pub badges : List String

abbrev pub Open : Type 0
Open = Dict String Pyramid

abbrev pub person_of : ChatMessage → Person
person_of msg = record { id = msg.user_id; name = msg.user_login; display = msg.display_name }

-- `_event` with no `chatter`: the run's chatter is the builder.
unfoldable pub event : Pyramid → Phase → Direction → WatchEvent
event p phase direction = record {
  channel_id = p.channel_id;
  payload = record {
    pyramid_id = p.id;
    phase = phase;
    direction = direction;
    token = p.token;
    width = p.width;
    peak = p.peak;
    user = p.builder;
    breaker = none;
    by_bot = false;
    self_broken = false;
  };
  user = p.builder;
  badges = p.badges;
}

-- `_event` for `broken`: the run's chatter is the breaker.
unfoldable pub broken_event : Pyramid → ChatMessage → WatchEvent
broken_event p msg = record {
  channel_id = p.channel_id;
  payload = record {
    pyramid_id = p.id;
    phase = broken;
    direction = nowhere;
    token = p.token;
    width = p.width;
    peak = p.peak;
    user = p.builder;
    breaker = some (person_of msg);
    by_bot = msg.is_self;
    self_broken = msg.user_id == p.builder.id;
  };
  user = person_of msg;
  badges = badge_ids msg;
}

-- The candidate that a one-token line opens.
unfoldable pub candidate : ChatMessage → Text → Pyramid
candidate msg token = record {
  channel_id = msg.channel_id;
  id = msg.message_id;
  builder = person_of msg;
  badges = badge_ids msg;
  token = token;
  width = 1;
  peak = 1;
  falling = false;
}

unfoldable pub start : Open → ChatMessage → Option Row → Open
start opened msg none = opened
start opened msg (some row) =
    if eqb row.count 1 && not msg.is_self
    then Dict.put msg.channel_id (candidate msg row.token) opened
    else opened

-- The count of a line that is a row of this pyramid by its builder.
unfoldable pub same_row : ChatMessage → Pyramid → Option Row → Option ℕ
same_row msg p none = none
same_row msg p (some row) =
    if (msg.user_id == p.builder.id) && (row.token == p.token) then some row.count else none

-- The line continues no pyramid: the open one ends, and one that had a second row was broken.
unfoldable pub give_up : Open → ChatMessage → Pyramid → Option Row → Open × List WatchEvent
give_up opened msg p row =
    let closed = Dict.remove msg.channel_id opened in
    if leb 2 p.peak
    then (start closed msg row, broken_event p msg ∷ [])
    else (start closed msg row, [])

-- One row of the open pyramid, up or down. `width - 1 == n` is written `width == n + 1`, which
-- differs from it on no integer.
unfoldable pub climb : Open → ChatMessage → Pyramid → Option Row → ℕ → Open × List WatchEvent
climb opened msg p row n =
    if not p.falling && eqb n (p.width + 1)
    then (let p' = record p { width = n; peak = n } in
        (Dict.put msg.channel_id p' opened, event p' step up ∷ []))
    else if leb 2 p.peak && eqb (n + 1) p.width
    then (let p' = record p { width = n; falling = true } in
        if eqb n 1
        then (Dict.remove msg.channel_id opened, event p' complete nowhere ∷ [])
        else (Dict.put msg.channel_id p' opened, event p' step down ∷ []))
    else give_up opened msg p row

unfoldable pub advance :
    Open → ChatMessage → Pyramid → Option Row → Option ℕ → Open × List WatchEvent
advance opened msg p row (some n) = climb opened msg p row n
advance opened msg p row none = give_up opened msg p row

unfoldable pub observe_row :
    Open → ChatMessage → Option Row → Option Pyramid → Open × List WatchEvent
observe_row opened msg row none = (start opened msg row, [])
observe_row opened msg row (some p) = advance opened msg p row (same_row msg p row)

unfoldable pub observe : Open → ChatMessage → Open × List WatchEvent
observe opened msg = observe_row opened msg (row_of msg.text) (Dict.get msg.channel_id opened)

-- `forget`
unfoldable pub forget : Open → String → Open
forget opened channel_id = Dict.remove channel_id opened
