-- ===== src/Prelude/Members.antt =====
-- Membership in what lists are made into.
use Prim.Native.String.{String}
use mathlib.Core.Path.{◌≡◌, refl, ap, ◌∙◌}
use mathlib.Core.Logic.{inl, inr}
use mathlib.Core.Bool.{Bool, ◌&&◌, ◌||◌}
use mathlib.Core.List.{List, [], ◌∷◌, ◌++◌, map}
use native.Mathlib.Omega.{arith}
use text.Mathlib.TextEquality.{eq_iff}
use doomtp_bot.Prelude.Tests.{Bool-cases}
use doomtp_bot.Prelude.Lists.{keep}
use doomtp_bot.Prelude.Eq.{◌==◌, string_eq, contains}
use doomtp_bot.Prelude.Sort.{sort, insert_sorted}

pub contains-append :
    (c : String) (xs ys : List String) → contains c (xs ++ ys) ≡ (contains c xs || contains c ys)
contains-append c [] ys = refl
contains-append c (x ∷ xs) ys = ground (arith, contains-append c xs ys)

pub contains-keep :
    (c : String) (p : String → Bool) (xs : List String)
    → contains c (keep p xs) ≡ (contains c xs && p c)
contains-keep c p [] = refl
contains-keep c p (x ∷ xs) = elim (Bool-cases (x == c)) [
  | inl same ↦
      let e : x ≡ c = (eq_iff x c).0 same in ground (arith, contains-keep c p xs, e, same, ap p e)
  | inr other ↦ ground (arith, contains-keep c p xs, other)
]

module _ {ℓ} {A : Type ℓ} (f : A → String) (before : A → A → Bool) where
  contains-insert_sorted :
      (c : String) (x : A) (xs : List A)
      → contains c (map f (insert_sorted before x xs)) ≡ contains c (map f (x ∷ xs))
  unfolding insert_sorted
  contains-insert_sorted c x [] = refl
  contains-insert_sorted c x (y ∷ ys) = elim (Bool-cases (before x y)) [
    | inl first ↦ rw first refl
    | inr later ↦ rw later (ground (arith, contains-insert_sorted c x ys))
  ]

  -- Sorting changes no membership.
  pub contains-sort :
      (c : String) (xs : List A) → contains c (map f (sort before xs)) ≡ contains c (map f xs)
  unfolding sort
  contains-sort c [] = refl
  contains-sort c (x ∷ xs) =
      contains-insert_sorted c x (sort before xs) ∙ ground (arith, contains-sort c xs)
