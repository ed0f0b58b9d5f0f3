-- ===== src/Core/Schedule.antt =====
-- core/schedule.py: the schedule of a channel, asked for when a command first reads it and then kept. Times
-- are milliseconds of the clock, and a segment's start is read already (datetime.fromisoformat).
pub mod Kept
mod Tests
use doomtp_bot.Prelude.{
  ℕ, ◌+◌, ◌-◌, ◌*◌, ◌/◌, String, Bool, true, false, not, Option, none, some, List, [], ◌∷◌, ltb,
  ◌==◌, string_eq, keep, if◌then◌else◌,
}
use doomtp_bot.Prelude.Dict.{Dict, get, put}

-- TTL_S and FAILED_TTL_S, in milliseconds
abbrev pub ttl_ms : ℕ
ttl_ms = 600 * 1000

abbrev pub failed_ttl_ms : ℕ
failed_ttl_ms = 60 * 1000

pub record Segment : Type 0 where
  pub fields : List (String × String)
  -- datetime.fromisoformat(segment["start"]).timestamp(), in milliseconds
  pub start : ℕ

-- The cache: until when an answer is good, and the answer.
abbrev pub Cache : Type 0
Cache = Dict String (ℕ × List Segment)

abbrev pub answered : ℕ → Option (List Segment) → List Segment × ℕ
answered ttl none = ([], failed_ttl_ms)
answered ttl (some found) = (found, ttl)

-- Where nothing good is kept: the request's answer, none if it failed, is kept from `later` on.
abbrev pub ask : ℕ → String → ℕ → Option (List Segment) → Cache → Cache × List Segment × Bool
ask ttl channel later answer cache =
    let (found, good) = answered ttl answer in
    (put channel (later + good, found) cache, found, true)

-- upcoming, with whether Helix was asked: at `now`, with the answer arriving at `later`
unfoldable pub upcoming :
    ℕ → String → ℕ → ℕ → Option (List Segment) → Cache → Cache × List Segment × Bool
upcoming ttl channel now later answer cache =
    let asked = ask ttl channel later answer cache in
    elim (get channel cache) [
      | none ↦ asked
      | some (until, found) ↦ if ltb now until then (cache, found, false) else asked
    ]

-- The loop of next_stream: the fields that are not empty, and the seconds until the start.
unfoldable pub first_after : ℕ → List Segment → Option (List (String × String) × ℕ)
first_after now [] = none
first_after now (segment ∷ more) =
    let rest = first_after now more in
    if ltb now segment.start
    then some (keep (λ f. not (f.1 == "")) segment.fields, (segment.start - now) / 1000)
    else rest
