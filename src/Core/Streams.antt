-- ===== src/Core/Streams.antt =====
-- core/streams.py: who is live. Helix's answer to a batch of channels is a parameter: none where the
-- request failed. What a poll changes is the live set, and the changes that it reports, in order.
pub mod Live
mod Tests
use doomtp_bot.Prelude.{
  ℕ, zero, suc, String, Bool, true, false, not, ◌&&◌, Option, none, some, List, [], ◌∷◌, ◌++◌, take,
  drop, length, keep, map, contains, is_some, string_eq, if◌then◌else◌,
}
use doomtp_bot.Prelude.Dict
use doomtp_bot.Prelude.Dict.{Dict}
use doomtp_bot.Policy.Snapshot.{ChannelSettings}
use doomtp_bot.Core.Dispatch.{is_joined}

pub record StreamInfo : Type 0 where
  pub title : String
  pub game : String
  pub viewers : ℕ
  pub started_at : Option String

abbrev pub Streams : Type 0
Streams = Dict String StreamInfo

-- core/events.py
pub record StreamStatusChanged : Type 0 where
  pub channel_id : String
  pub live : Bool
  pub at : ℕ

-- StreamStatus.is_live
unfoldable pub is_live : Streams → String → Bool
is_live streams channel_id = is_some (Dict.get channel_id streams)

-- The first loop of `_apply`: what Helix found becomes the live set's.
unfoldable pub add_live : ℕ → Streams → Streams → Streams × List StreamStatusChanged
add_live at streams [] = (streams, [])
add_live at streams ((channel_id, info) ∷ found) =
    let (after, changes) = add_live at (Dict.put channel_id info streams) found in
    (
      after,
      (if is_live streams channel_id
          then changes
          else record { channel_id = channel_id; live = true; at = at } ∷ changes),
    )

-- [c for c in self.status.streams if c not in found]
unfoldable pub gone : Streams → Streams → List String
gone found streams = keep (λ c. not (is_live found c)) (map (λ e. e.0) streams)

-- The second loop of `_apply`.
unfoldable pub drop_gone :
    ℕ → List String → Streams → List String → Streams × List StreamStatusChanged
drop_gone at wanted streams [] = (streams, [])
drop_gone at wanted streams (channel_id ∷ rest) =
    let (after, changes) = drop_gone at wanted (Dict.remove channel_id streams) rest in
    (
      after,
      (if contains channel_id wanted
          then record { channel_id = channel_id; live = false; at = at } ∷ changes
          else changes),
    )

-- _apply
unfoldable pub apply : ℕ → Streams → List String → Streams → Streams × List StreamStatusChanged
apply at found wanted streams =
    let (with_new, came) = add_live at streams found in
    let (after, went) = drop_gone at wanted with_new (gone found with_new) in (after, came ++ went)

-- found.update(more)
unfoldable pub update : Streams → Streams → Streams
update found [] = found
update found ((channel_id, info) ∷ more) = update (Dict.put channel_id info found) more

abbrev pub batch : ℕ
batch = 100

-- The requests of `poll`, a batch at a time, until one fails. The number of channels is fuel enough.
unfoldable pub fetch_all :
    (List String → Option Streams) → ℕ → List String → Streams → Option Streams
fetch_all fetch zero wanted found = some found
fetch_all fetch (suc fuel) [] found = some found
fetch_all fetch (suc fuel) (c ∷ cs) found = elim (fetch (take batch (c ∷ cs))) [
  | none ↦ none
  | some answer ↦ fetch_all fetch fuel (drop batch (c ∷ cs)) (update found answer)
]

-- core/channels.py: the ids of active_channels
unfoldable pub active_ids : Dict String ChannelSettings → List String
active_ids [] = []
active_ids ((channel_id, settings) ∷ d) =
    let rest = active_ids d in
    if is_joined (some settings) then settings.channel_id ∷ rest else rest

unfoldable pub poll_of :
    ℕ → List String → Option Streams → Streams → Streams × List StreamStatusChanged
poll_of at wanted none streams = (streams, [])
poll_of at wanted (some found) streams = apply at found wanted streams

-- poll
unfoldable pub poll :
    (List String → Option Streams) → ℕ → List String → Streams → Streams × List StreamStatusChanged
poll fetch at [] streams = ([], [])
poll fetch at (c ∷ cs) streams =
    poll_of at (c ∷ cs) (fetch_all fetch (length (c ∷ cs)) (c ∷ cs) []) streams
