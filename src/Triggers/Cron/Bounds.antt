-- ===== src/Triggers/Cron/Bounds.antt =====
-- What a cron text that parses is worth.
use doomtp_bot.Prelude.{
  ℕ, ◌≡◌, refl, true, not, List, [], ◌∷◌, Text, arith, all, map, split, ◌==◌, nat_eq, list_eq,
  points, Bool-cases, inl, inr,
}
use doomtp_bot.Triggers.Cron.{
  Unicode, Field, minute, hour, day, month, weekday, Outcome, raised, returned, bind, checked,
  field_values, chunks_numbers, commas_from, Cron, parse_parts, parse_cron, in_bounds, wrap,
}
use mathlib.Core.Path.{subst}

-- A step of a computation that returned did return.
bind_returned {ℓ κ} :
    {A : Type ℓ} {B : Type κ} (m : Outcome A) (f : A → Outcome B) (b : B)
    → bind m f ≡ returned b
    → (a : A) × (m ≡ returned a) × (f a ≡ returned b)
bind_returned (raised e) f b h = absurd (cc h)
bind_returned (returned a) f b h = (a, refl, h)

checked-bounds :
    (field : Field) (found values : List ℕ)
    → checked field found ≡ returned values
    → all (in_bounds field) values ≡ true
unfolding checked
checked-bounds field found values h =
    elim (Bool-cases (all (in_bounds field) (map (wrap field) found))) [
      | inl good ↦
          let e : map (wrap field) found ≡ values = ground (arith, good, h) in
          subst (λ vs. all (in_bounds field) vs ≡ true) e good
      | inr bad ↦ absurd (ground (arith, bad, h))
    ]

field_values-bounds :
    (u : Unicode) (field : Field) (part : Text) (values : List ℕ)
    → field_values u field part ≡ returned values
    → all (in_bounds field) values ≡ true
unfolding field_values
field_values-bounds u field part values h =
    let (found, summed, step) =
      bind_returned (chunks_numbers u field (commas_from [] part)) (checked field) values h in
    checked-bounds field found values step

-- Each set of a schedule holds only values of its field.
pub record IsInBounds (cron : Cron) : Type 0 where
  pub minutes : all (in_bounds minute) cron.minutes ≡ true
  pub hours : all (in_bounds hour) cron.hours ≡ true
  pub days : all (in_bounds day) cron.days ≡ true
  pub months : all (in_bounds month) cron.months ≡ true
  pub weekdays : all (in_bounds weekday) cron.weekdays ≡ true

parse_parts-IsInBounds :
    (u : Unicode) (mi ho da mo we : Text) (cron : Cron)
    → parse_parts u (mi ∷ ho ∷ da ∷ mo ∷ we ∷ []) ≡ returned cron
    → IsInBounds cron
unfolding parse_parts
parse_parts-IsInBounds u mi ho da mo we cron h =
    let (minutes, e1, r1) = bind_returned (field_values u minute mi) _ cron h in
    let (hours, e2, r2) = bind_returned (field_values u hour ho) _ cron r1 in
    let (days, e3, r3) = bind_returned (field_values u day da) _ cron r2 in
    let (months, e4, r4) = bind_returned (field_values u month mo) _ cron r3 in
    let (weekdays, e5, r5) = bind_returned (field_values u weekday we) _ cron r4 in
    let made : Cron = record {
      minutes = minutes;
      hours = hours;
      days = days;
      months = months;
      weekdays = weekdays;
      restricted_day = not (da == points "*");
      restricted_weekday = not (we == points "*");
    } in
    let e : made ≡ cron = cc r5 in
    subst IsInBounds e (record {
      minutes = field_values-bounds u minute mi minutes e1;
      hours = field_values-bounds u hour ho hours e2;
      days = field_values-bounds u day da days e3;
      months = field_values-bounds u month mo months e4;
      weekdays = field_values-bounds u weekday we weekdays e5;
    })

-- A schedule that parses holds, in each field, only values that a date can have.
pub parse_cron-IsInBounds :
    (u : Unicode) (text : Text) (cron : Cron) → parse_cron u text ≡ returned cron → IsInBounds cron
unfolding parse_cron parse_parts
parse_cron-IsInBounds u text cron h = go (split (u.lower text)) h
  where
    go : (parts : List Text) → parse_parts u parts ≡ returned cron → IsInBounds cron
    go [] e = absurd (cc e)
    go (a ∷ []) e = absurd (cc e)
    go (a ∷ b ∷ []) e = absurd (cc e)
    go (a ∷ b ∷ c ∷ []) e = absurd (cc e)
    go (a ∷ b ∷ c ∷ f ∷ []) e = absurd (cc e)
    go (a ∷ b ∷ c ∷ f ∷ g ∷ []) e = parse_parts-IsInBounds u a b c f g cron e
    go (a ∷ b ∷ c ∷ f ∷ g ∷ i ∷ rest) e = absurd (cc e)
