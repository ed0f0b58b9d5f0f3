-- ===== src/Triggers/Cron.antt =====
-- triggers/cron.py: cron schedules. A text is a list of code points. What Unicode says of digits and of
-- lower case is a parameter: `str.isdigit` holds for more characters than `int` reads (`²` is one), and
-- then `int` raises a ValueError, which here is an outcome beside the CronError. A set is a list.

pub mod Bounds
mod Tests
use doomtp_bot.Prelude.{
  ℕ, zero, suc, ◌+◌, ◌-◌, ◌*◌, ◌/◌, ◌%◌, String, Bool, true, false, not, ◌&&◌, ◌||◌, Option, none,
  some, List, [], ◌∷◌, ◌++◌, Text, leb, ltb, eqb, ◌==◌, nat_eq, list_eq, list_beq, contains, all,
  map, split, points, if◌then◌else◌,
}
use doomtp_bot.Prelude.Dict
use doomtp_bot.Prelude.Dict.{Dict}

-- Python's tables of characters: lower case, `isdigit`, and the decimal digit that `int` reads.
pub record Unicode : Type 0 where
  pub lower : Text → Text
  pub is_digit : ℕ → Bool
  pub digit : ℕ → Option ℕ

pub data Field : Type 0 where
  minute hour day month weekday : Field

-- RANGES
unfoldable pub bounds : Field → ℕ × ℕ
bounds minute = (0, 59)
bounds hour = (0, 23)
bounds day = (1, 31)
bounds month = (1, 12)
bounds weekday = (0, 6)

-- NAMES
unfoldable pub names : Field → Dict Text ℕ
names minute = []
names hour = []
names day = []
names month =
    (points "jan", 1)
    ∷ (points "feb", 2)
    ∷ (points "mar", 3)
    ∷ (points "apr", 4)
    ∷ (points "may", 5)
    ∷ (points "jun", 6)
    ∷ (points "jul", 7)
    ∷ (points "aug", 8)
    ∷ (points "sep", 9)
    ∷ (points "oct", 10)
    ∷ (points "nov", 11)
    ∷ (points "dec", 12)
    ∷ []
names weekday =
    (points "sun", 0)
    ∷ (points "mon", 1)
    ∷ (points "tue", 2)
    ∷ (points "wed", 3)
    ∷ (points "thu", 4)
    ∷ (points "fri", 5)
    ∷ (points "sat", 6)
    ∷ []

-- What raised: a CronError, with what it complains about, or the ValueError of `int`.
pub data CronError : Type 0 where
  five_fields : CronError
  bad_step : (chunk : Text) → CronError
  not_a : (field : Field) (chunk : Text) → CronError
  backwards : (chunk : Text) → CronError
  out_of_range : (field : Field) → CronError
  int_failed : (text : Text) → CronError

pub data Outcome {ℓ} (A : Type ℓ) : Type ℓ where
  raised : CronError → Outcome A
  returned : A → Outcome A

abbrev pub bind {ℓ κ} : {A : Type ℓ} {B : Type κ} → Outcome A → (A → Outcome B) → Outcome B
bind (raised e) f = raised e
bind (returned a) f = f a

-- str.isdigit
unfoldable pub all_digits : Unicode → Text → Bool
all_digits u [] = false
all_digits u (c ∷ cs) = all u.is_digit (c ∷ cs)

-- The number that a text of digits stands for, read from the left after `n`.
unfoldable pub digits_from : Unicode → ℕ → Text → Option ℕ
digits_from u n [] = some n
digits_from u n (c ∷ cs) = elim (u.digit c) [ none ↦ none | some k ↦ digits_from u (n * 10 + k) cs ]

-- int(text), of a text for which `isdigit` holds
unfoldable pub to_int : Unicode → Text → Outcome ℕ
to_int u text = elim (digits_from u 0 text) [
  | none ↦ raised (int_failed text)
  | some n ↦ returned n
]

-- text.partition(c): what stands before the first `c`, and what after it (nothing where there is none)
unfoldable pub partition : ℕ → Text → Text × Text
partition c [] = ([], [])
partition c (x ∷ xs) =
    let (before, after) = partition c xs in if eqb x c then ([], xs) else (x ∷ before, after)

-- text.split(",")
unfoldable pub commas_from : Text → Text → List Text
commas_from chunk [] = chunk ∷ []
commas_from chunk (x ∷ xs) = elim (eqb x 44) [
  | true ↦ chunk ∷ commas_from [] xs
  | false ↦ commas_from (chunk ++ x ∷ []) xs
]

-- _step
unfoldable pub step_of : Unicode → Text → Text → Outcome ℕ
step_of u [] chunk = returned 1
step_of u (c ∷ cs) chunk =
    if not (all_digits u (c ∷ cs))
    then raised (bad_step chunk)
    else bind (to_int u (c ∷ cs)) (λ n. if ltb n 1 then raised (bad_step chunk) else returned n)

abbrev sunday : Field → ℕ → ℕ
sunday weekday n = if eqb n 7 then 0 else n
sunday minute n = n
sunday hour n = n
sunday day n = n
sunday month n = n

-- _value
unfoldable pub value : Unicode → Field → Text → Text → Outcome ℕ
value u field text chunk = elim (Dict.get text (names field)) [
  | some n ↦ returned n
  | none ↦
      if all_digits u text
      then bind (to_int u text) (λ n. returned (sunday field n))
      else raised (not_a field chunk)
]

-- The `count` numbers from `first`, `step` apart.
unfoldable pub progression : ℕ → ℕ → ℕ → List ℕ
progression first step zero = []
progression first step (suc count) = first ∷ progression (first + step) step count

-- range(first, last + 1, step), which has ceil((last + 1 - first) / step) numbers
unfoldable pub numbers : ℕ → ℕ → ℕ → List ℕ
numbers first last step = progression first step ((last + 1 - first + (step - 1)) / step)

abbrev dash : ℕ
dash = 45

-- `first` and `last` of a body
unfoldable pub ends : Unicode → Field → Text → Text → Outcome (ℕ × ℕ)
ends u field body chunk =
    if body == points "*"
    then returned (bounds field)
    else (let (start_text, end_text) = partition dash body in
        bind (value u field start_text chunk) (λ first.
          bind (if end_text == [] then returned first else value u field end_text chunk)
            (λ last. if ltb last first then raised (backwards chunk) else returned (first, last))))

-- One pass of the loop over the chunks of a field.
unfoldable pub chunk_numbers : Unicode → Field → Text → Outcome (List ℕ)
chunk_numbers u field chunk =
    let (body, step_text) = partition 47 chunk in
    bind (step_of u step_text chunk)
      (λ step. bind (ends u field body chunk) (λ e. returned (numbers e.0 e.1 step)))

unfoldable pub chunks_numbers : Unicode → Field → List Text → Outcome (List ℕ)
chunks_numbers u field [] = returned []
chunks_numbers u field (chunk ∷ chunks) =
    let rest = chunks_numbers u field chunks in
    bind (chunk_numbers u field chunk) (λ found. bind rest (λ more. returned (found ++ more)))

abbrev wrap : Field → ℕ → ℕ
wrap weekday n = n % 7
wrap minute n = n
wrap hour n = n
wrap day n = n
wrap month n = n

abbrev pub in_bounds : Field → ℕ → Bool
in_bounds field n = leb (bounds field).0 n && leb n (bounds field).1

unfoldable pub checked : Field → List ℕ → Outcome (List ℕ)
checked field found =
    let normalized = map (wrap field) found in
    if all (in_bounds field) normalized then returned normalized else raised (out_of_range field)

-- _field
unfoldable pub field_values : Unicode → Field → Text → Outcome (List ℕ)
field_values u field part =
    bind (chunks_numbers u field (commas_from [] part)) (λ found. checked field found)

pub record Cron : Type 0 where
  pub minutes : List ℕ
  pub hours : List ℕ
  pub days : List ℕ
  pub months : List ℕ
  pub weekdays : List ℕ
  pub restricted_day : Bool
  pub restricted_weekday : Bool

unfoldable pub parse_parts : Unicode → List Text → Outcome Cron
parse_parts u (mi ∷ ho ∷ da ∷ mo ∷ we ∷ []) = bind (field_values u minute mi) (λ minutes.
    bind (field_values u hour ho) (λ hours. bind (field_values u day da) (λ days.
      bind (field_values u month mo) (λ months. bind (field_values u weekday we) (λ weekdays.
        returned (record {
          minutes = minutes;
          hours = hours;
          days = days;
          months = months;
          weekdays = weekdays;
          restricted_day = not (da == points "*");
          restricted_weekday = not (we == points "*");
        }))))))
parse_parts u parts = raised five_fields

-- parse_cron
unfoldable pub parse_cron : Unicode → Text → Outcome Cron
parse_cron u text = parse_parts u (split (u.lower text))

-- What `matches` reads of a datetime; `weekday_from_monday` is Python's `weekday()`.
pub record Moment : Type 0 where
  pub minute_of : ℕ
  pub hour_of : ℕ
  pub day_of : ℕ
  pub month_of : ℕ
  pub weekday_from_monday : ℕ

-- Cron.matches
unfoldable pub matches : Cron → Moment → Bool
matches cron when =
    let day_ok = contains when.day_of cron.days in
    let weekday_ok = contains ((when.weekday_from_monday + 1) % 7) cron.weekdays in
    if not (contains when.minute_of cron.minutes) || not (contains when.hour_of cron.hours)
    then false
    else if not (contains when.month_of cron.months)
    then false
    else if cron.restricted_day && cron.restricted_weekday
    then day_ok || weekday_ok
    else day_ok && weekday_ok
