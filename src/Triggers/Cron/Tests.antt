-- ===== src/Triggers/Cron/Tests.antt =====
-- A schedule that parses and one that raises a ValueError, and the theorem at the first.
use doomtp_bot.Prelude.{
  ◌≡◌, refl, true, false, none, some, [], ◌∷◌, leb, ◌-◌, ◌&&◌, points, split, if◌then◌else◌, nat_eq,
  list_eq,
}
use doomtp_bot.Prelude.Dict
use doomtp_bot.Prelude.{split_from, is_space}
use doomtp_bot.Triggers.Cron.{
  Cron, Unicode, returned, raised, parse_cron, parse_parts, field_values, checked, chunks_numbers,
  chunk_numbers, commas_from, partition, step_of, ends, value, all_digits, digits_from, to_int,
  numbers, progression, bounds, names, int_failed, matches,
}
use doomtp_bot.Triggers.Cron.Bounds
use doomtp_bot.Triggers.Cron.Bounds.{IsInBounds}

-- The digits of ASCII and the superscript two, which `isdigit` takes and `int` does not.
abbrev table : Unicode
table = record {
  lower = λ text. text;
  is_digit = λ c. if (leb 48 c && leb c 57) then true else (if leb 178 c then leb c 178 else false);
  digit = λ c. if (leb 48 c && leb c 57) then some (c - 48) else none;
}

abbrev friday_evening : Cron
friday_evening = record {
  minutes = 0 ∷ 30 ∷ [];
  hours = 18 ∷ [];
  days = 1 ∷ 2 ∷ 3 ∷ [];
  months = 6 ∷ [];
  weekdays = 5 ∷ [];
  restricted_day = true;
  restricted_weekday = true;
}

program : Unit {0}
unfolding parse_cron parse_parts field_values checked chunks_numbers chunk_numbers commas_from
    partition step_of ends value all_digits digits_from to_int numbers progression bounds names
    points split split_from is_space Dict.get matches
program = tt

parsed : parse_cron table (points "*/30 18 1-3 jun fri") ≡ returned friday_evening
unfolding program
parsed = refl

int_raises : parse_cron table (points "² 18 1 6 5") ≡ raised (int_failed (178 ∷ []))
unfolding program
int_raises = refl

-- Either of a restricted day and weekday is enough: the second of June, a Tuesday.
either_day :
    matches friday_evening
      (record { minute_of = 30; hour_of = 18; day_of = 2; month_of = 6; weekday_from_monday = 1 })
    ≡ true
unfolding matches
either_day = refl

parse_cron-IsInBounds_example : IsInBounds friday_evening
parse_cron-IsInBounds_example =
    Bounds.parse_cron-IsInBounds table (points "*/30 18 1-3 jun fri") friday_evening parsed
