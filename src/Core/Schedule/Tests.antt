-- ===== src/Core/Schedule/Tests.antt =====
-- A failed request for a channel's schedule, and the readings after it.
use doomtp_bot.Prelude.{
  ◌≡◌, ◌≢◌, refl, ap, none, some, [], ◌∷◌, false, ◌==◌, string_eq, arith, String,
}
use doomtp_bot.Prelude.Dict
use doomtp_bot.Core.Schedule.{Cache, Segment, upcoming, ttl_ms, first_after}
use doomtp_bot.Core.Schedule.Kept

abbrev late_show : Segment
late_show = record { fields = ("title", "late") ∷ ("category", "") ∷ []; start = 9000 }

first_after_one : first_after 5000 (late_show ∷ []) ≡ some (("title", "late") ∷ [], 4)
unfolding first_after
first_after_one = refl

abbrev both_kept : Cache
both_kept = ("c", (60001, [])) ∷ ("d", (600003, late_show ∷ [])) ∷ []

abbrev c_id : String
c_id = "c"

abbrev d_id : String
d_id = "d"

other_channel : d_id ≢ c_id
other_channel e = absurd (cc (ap (λ x. x == c_id) e))

upcoming-again_example :
    upcoming ttl_ms "c" 59000 59001 (some (late_show ∷ [])) both_kept ≡ (both_kept, [], false)
unfolding upcoming Dict.get Dict.put
upcoming-again_example =
    Kept.upcoming-again ttl_ms c_id d_id 0 1 2 3 59000 59001 none (some (late_show ∷ []))
      (some (late_show ∷ [])) [] refl other_channel (omega arith)
