-- ===== src/Prelude/Eq.antt =====
-- Python's `==` on the values that the program compares, as an interface with its law.
use Prim.Native.Nat.{ℕ}
use Prim.Native.String.{String}
use mathlib.Core.Path.{◌≡◌, refl}
use mathlib.Core.Logic.{◌↔◌}
use mathlib.Core.Bool.{Bool, true, false, ◌&&◌}
use mathlib.Core.List.{List, [], ◌∷◌}
use mathlib.Core.Option.{Option, none, some}
use native.Mathlib.Omega.{arith}
use text.Mathlib.Text.{◌==◌ as text_beq}
use text.Mathlib.TextEquality.{eq_iff}
use doomtp_bot.Prelude.Tests.{eqb, eqb_iff, if◌then◌else◌}

pub record Comparable {κ} (K : Type κ) : Type κ where
  -- `x == y`, which is true exactly of equal values.
  pub same : (x y : K) → Bool
  pub same_iff : (x y : K) → (same x y ≡ true) ↔ (x ≡ y)

abbrev pub pair_beq {ℓ κ} :
    {A : Type ℓ} {B : Type κ} → Comparable A → Comparable B → A × B → A × B → Bool
pair_beq e f (a, b) (c, d) = e.same a c && f.same b d

pub pair_beq_iff {ℓ κ} :
    {A : Type ℓ} {B : Type κ} (e : Comparable A) (f : Comparable B) (p q : A × B)
    → (pair_beq e f p q ≡ true) ↔ (p ≡ q)
pair_beq_iff e f (a, b) (c, d) = ground (arith, e.same_iff a c, f.same_iff b d)

instance abbrev pub pair_eq {ℓ κ} :
    {A : Type ℓ} {B : Type κ} ⦃e : Comparable A⦄ ⦃f : Comparable B⦄ → Comparable (A × B)
pair_eq ⦃e⦄ ⦃f⦄ = record { same = pair_beq e f; same_iff = pair_beq_iff e f }

abbrev pub list_beq {ℓ} : {A : Type ℓ} → Comparable A → List A → List A → Bool
list_beq e [] [] = true
list_beq e [] (y ∷ ys) = false
list_beq e (x ∷ xs) [] = false
list_beq e (x ∷ xs) (y ∷ ys) = e.same x y && list_beq e xs ys

pub list_beq_iff {ℓ} :
    {A : Type ℓ} (e : Comparable A) (xs ys : List A) → (list_beq e xs ys ≡ true) ↔ (xs ≡ ys)
list_beq_iff e [] [] = ground arith
list_beq_iff e [] (y ∷ ys) = ground arith
list_beq_iff e (x ∷ xs) [] = ground arith
list_beq_iff e (x ∷ xs) (y ∷ ys) = ground (arith, e.same_iff x y, list_beq_iff e xs ys)

instance abbrev pub list_eq {ℓ} : {A : Type ℓ} ⦃e : Comparable A⦄ → Comparable (List A)
list_eq ⦃e⦄ = record { same = list_beq e; same_iff = list_beq_iff e }

-- Python's `==`, for texts and numbers too.
module _ {κ} {K : Type κ} ⦃c : Comparable K⦄ where
  infix 50 ◌==◌
  abbrev pub ◌==◌ : K → K → Bool
  x == y = c.same x y

  pub beq_refl : (x : K) → (x == x) ≡ true
  beq_refl x = (c.same_iff x x).1 refl

instance abbrev pub string_eq : Comparable String
string_eq = record { same_iff = eq_iff; same = text_beq }

instance abbrev pub nat_eq : Comparable ℕ
nat_eq = record { same_iff = eqb_iff; same = eqb }

-- `x in xs` for a sequence or a set kept as a list.
module _ {ℓ} {A : Type ℓ} ⦃e : Comparable A⦄ where
  abbrev pub contains : A → List A → Bool
  contains a [] = false
  contains a (x ∷ xs) = elim (x == a) [ true ↦ true | false ↦ contains a xs ]

-- A text that is given and not empty: what Python reads as true.
abbrev pub given : Option String → Option String
given none = none
given (some s) = if s == "" then none else some s

-- `set(xs) & set(ys)` is not empty.
module _ {ℓ} {A : Type ℓ} ⦃e : Comparable A⦄ where
  abbrev pub meets : List A → List A → Bool
  meets [] ys = false
  meets (x ∷ xs) ys = elim (contains x ys) [ true ↦ true | false ↦ meets xs ys ]
