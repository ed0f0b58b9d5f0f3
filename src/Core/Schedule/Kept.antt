-- ===== src/Core/Schedule/Kept.antt =====
-- How often Helix is asked for a channel's schedule.
use doomtp_bot.Prelude.{
  ℕ, ◌+◌, ◌≤◌, ◌<◌, ◌≡◌, ◌≢◌, refl, ◌∙◌, String, true, false, Option, none, some, List, arith, ltb,
  ◌==◌, string_eq, min, inl, inr, Option-cases, Bool-cases,
}
use doomtp_bot.Prelude.Dict.{get, put, get-put, get-put_self}
use doomtp_bot.Core.Schedule.{Cache, Segment, upcoming, ask, answered, failed_ttl_ms}

upcoming-asked :
    (ttl : ℕ) (channel : String) (now later : ℕ) (answer : Option (List Segment)) (cache : Cache)
    → (upcoming ttl channel now later answer cache).2 ≡ true
    → upcoming ttl channel now later answer cache ≡ ask ttl channel later answer cache
unfolding upcoming
upcoming-asked ttl channel now later answer cache h = elim (Option-cases (get channel cache)) [
  | inl empty ↦ rw (empty, upcoming) refl
  | inr ((until, found), hit) ↦ elim (Bool-cases (ltb now until)) [
    | inl good ↦ absurd (ground (arith, hit, good, h))
    | inr old ↦ rw (hit, old, upcoming) refl
  ]
]

upcoming-kept :
    (ttl : ℕ) (channel : String) (now later until : ℕ) (answer : Option (List Segment))
    (found : List Segment) (cache : Cache)
    → get channel cache ≡ some (until, found)
    → now < until
    → upcoming ttl channel now later answer cache ≡ (cache, found, false)
unfolding upcoming
upcoming-kept ttl channel now later until answer found cache hit soon =
    let good : ltb now until ≡ true = ground (arith, soon) in rw (hit, good, upcoming) refl

upcoming-other :
    (ttl : ℕ) (channel other : String) (now later : ℕ) (answer : Option (List Segment))
    (cache : Cache)
    → other ≢ channel
    → get channel (upcoming ttl other now later answer cache).0 ≡ get channel cache
unfolding upcoming
upcoming-other ttl channel other now later answer cache apart =
    let differ : (other == channel) ≡ false =
      ground (arith, apart, string_eq.same_iff other channel) in
    let value : ℕ × List Segment = (later + (answered ttl answer).1, (answered ttl answer).0) in
    let put_same : get channel (put other value cache) ≡ get channel cache =
      ground (arith, differ, get-put other channel value cache) in
    elim (Option-cases (get other cache)) [
      | inl empty ↦ rw (empty, upcoming) put_same
      | inr ((until, found), hit) ↦ elim (Bool-cases (ltb now until)) [
        | inl good ↦ rw (hit, good, upcoming) refl
        | inr old ↦ rw (hit, old, upcoming) put_same
      ]
    ]

answered_time :
    (ttl : ℕ) (answer : Option (List Segment)) → min ttl failed_ttl_ms ≤ (answered ttl answer).1
answered_time ttl none = omega arith
answered_time ttl (some found) = omega arith

-- Once Helix was asked for a channel's schedule, whether it answered or failed, a later reading within a
-- minute of that, or within the time to live where it is shorter, asks for nothing and gives the same
-- answer, also where the schedule of another channel was read in between.
pub upcoming-again :
    (ttl : ℕ) (channel other : String) (now later now' later' now'' later'' : ℕ)
    (answer answer' answer'' : Option (List Segment)) (cache : Cache)
    → (upcoming ttl channel now later answer cache).2 ≡ true
    → other ≢ channel
    → now'' < later + min ttl failed_ttl_ms
    → let first = upcoming ttl channel now later answer cache in
      let between = upcoming ttl other now' later' answer' first.0 in
      upcoming ttl channel now'' later'' answer'' between.0 ≡ (between.0, first.1, false)
upcoming-again ttl channel other now later now' later' now'' later'' answer answer' answer'' cache
      asked apart soon =
    let first = upcoming ttl channel now later answer cache in
    let value : ℕ × List Segment = (later + (answered ttl answer).1, (answered ttl answer).0) in
    let is_ask = upcoming-asked ttl channel now later answer cache asked in
    let stored : get channel first.0 ≡ some (later + (answered ttl answer).1, first.1) =
      rw is_ask (get-put_self channel value cache) in
    upcoming-kept ttl channel now'' later'' (later + (answered ttl answer).1) answer'' first.1
      (upcoming ttl other now' later' answer' first.0).0
      (upcoming-other ttl channel other now' later' answer' first.0 apart ∙ stored)
      (omega (arith, soon, answered_time ttl answer))
