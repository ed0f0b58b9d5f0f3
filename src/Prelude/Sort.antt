-- ===== src/Prelude/Sort.antt =====
-- Python's stable `sorted`, as insertion sort by a test that says when one item must stand before
-- another, with what a search through the sorted list finds.
use Prim.Native.Nat.{ℕ, ◌≤◌}
use mathlib.Core.Path.{◌≡◌, subst}
use mathlib.Core.Logic.{inl, inr}
use mathlib.Core.Bool.{Bool, true, false}
use mathlib.Core.Option.{Option, none, some}
use mathlib.Core.List.{List, [], ◌∷◌, Perm}
use mathlib.Core.List.Perm
use native.Mathlib.Omega.{arith}
use doomtp_bot.Prelude.Tests.{leb, if◌then◌else◌, Bool-cases}
use doomtp_bot.Prelude.Lists.{All}

module _ {ℓ} {A : Type ℓ} where
  -- `x` goes in front of the first item that it must stand before.
  unfoldable pub insert_sorted : (A → A → Bool) → A → List A → List A
  insert_sorted before x [] = x ∷ []
  insert_sorted before x (y ∷ ys) = if before x y then x ∷ y ∷ ys else y ∷ insert_sorted before x ys

  -- Items are put in from the last to the first, each in front of those that it ties with: the sort
  -- is stable for `before x y` = "x's key is not greater than y's".
  unfoldable pub sort : (A → A → Bool) → List A → List A
  unfolding insert_sorted
  sort before [] = []
  sort before (x ∷ xs) = insert_sorted before x (sort before xs)

  -- next((x for x in xs if p(x)), None)
  abbrev pub find : (A → Bool) → List A → Option A
  find p [] = none
  find p (x ∷ xs) = elim (p x) [ true ↦ some x | false ↦ find p xs ]

module _ {ℓ} {A : Type ℓ} where
  pub insert_sorted-perm :
      (before : A → A → Bool) (x : A) (xs : List A) → Perm (insert_sorted before x xs) (x ∷ xs)
  unfolding insert_sorted
  insert_sorted-perm before x [] = Perm.refl _
  insert_sorted-perm before x (y ∷ ys) = elim (Bool-cases (before x y)) [
    | inl first ↦ rw first (Perm.refl _)
    | inr later ↦
        rw later (Perm.trans (Perm.cons y (insert_sorted-perm before x ys)) (Perm.swap x y ys))
  ]

  -- Sorting keeps every item, as often.
  pub sort-perm : (before : A → A → Bool) (xs : List A) → Perm (sort before xs) xs
  unfolding sort
  sort-perm before [] = Perm.refl _
  sort-perm before (x ∷ xs) =
      Perm.trans (insert_sorted-perm before x (sort before xs)) (Perm.cons x (sort-perm before xs))

module _ {ℓ κ} {A : Type ℓ} (P : A → Type κ) (before : A → A → Bool) where
  All-insert_sorted : (x : A) (ys : List A) → P x → All P ys → All P (insert_sorted before x ys)
  unfolding insert_sorted
  All-insert_sorted x [] px all = (px, tt)
  All-insert_sorted x (y ∷ ys) px all = elim (Bool-cases (before x y)) [
    | inl first ↦ rw first (px, all)
    | inr later ↦ rw later (all.0, All-insert_sorted x ys px all.1)
  ]

  All-of_insert_sorted : (x : A) (ys : List A) → All P (insert_sorted before x ys) → P x × All P ys
  unfolding insert_sorted
  All-of_insert_sorted x [] all = (all.0, tt)
  All-of_insert_sorted x (y ∷ ys) all = elim (Bool-cases (before x y)) [
    | inl first ↦ (rw first at all)
    | inr later ↦
        let split = rw later at all in
        let rest = All-of_insert_sorted x ys split.1 in (rest.0, (split.0, rest.1))
  ]

  pub All-sort : (xs : List A) → All P xs → All P (sort before xs)
  unfolding sort
  All-sort [] all = tt
  All-sort (x ∷ xs) all = All-insert_sorted x (sort before xs) all.0 (All-sort xs all.1)

  pub All-of_sort : (xs : List A) → All P (sort before xs) → All P xs
  unfolding sort
  All-of_sort [] all = tt
  All-of_sort (x ∷ xs) all =
      let both = All-of_insert_sorted x (sort before xs) all in (both.0, All-of_sort xs both.1)

-- What a search finds passes the test, and has every property that all items have.
pub find-All {ℓ κ} :
    {A : Type ℓ} (P : A → Type κ) (p : A → Bool) (xs : List A) (a : A)
    → All P xs
    → find p xs ≡ some a
    → P a × (p a ≡ true)
find-All P p [] a all h = cc
find-All P p (x ∷ xs) a all h = elim (Bool-cases (p x)) [
  | inl good ↦
      let e : x ≡ a = ground (arith, good) in (subst P e all.0, subst (λ y. p y ≡ true) e good)
  | inr bad ↦ find-All P p xs a all.1 (ground (arith, bad))
]

-- A search that finds nothing has refused every item.
pub find-none {ℓ} :
    {A : Type ℓ} (p : A → Bool) (xs : List A) → find p xs ≡ none → All (λ x. p x ≡ false) xs
find-none p [] h = tt
find-none p (x ∷ xs) h = elim (Bool-cases (p x)) [
  | inl good ↦ absurd (ground (arith, good))
  | inr bad ↦ (bad, find-none p xs (ground (arith, bad)))
]

module _ {ℓ} {A : Type ℓ} (key : A → ℕ) where
  -- The keys fall, or stay, from each item to all later ones.
  abbrev pub Descending : List A → Type 0
  Descending [] = Unit
  Descending (x ∷ xs) = All (λ y. key y ≤ key x) xs × Descending xs

module _ {ℓ} {A : Type ℓ} (key : A → ℕ) (before : A → A → Bool)
    (higher : (x y : A) → before x y ≡ true → key y ≤ key x)
    (lower : (x y : A) → before x y ≡ false → key x ≤ key y) where
  All-le_trans :
      (x y : A) (zs : List A)
      → key y ≤ key x
      → All (λ z. key z ≤ key y) zs
      → All (λ z. key z ≤ key x) zs
  All-le_trans x y [] le all = tt
  All-le_trans x y (z ∷ zs) le all = (omega arith, All-le_trans x y zs le all.1)

  Descending-insert_sorted :
      (x : A) (ys : List A) → Descending key ys → Descending key (insert_sorted before x ys)
  unfolding insert_sorted
  Descending-insert_sorted x [] d = (tt, tt)
  Descending-insert_sorted x (y ∷ ys) d = elim (Bool-cases (before x y)) [
    | inl first ↦ rw first ((higher x y first, All-le_trans x y ys (higher x y first) d.0), d)
    | inr later ↦ rw later (
      All-insert_sorted (λ z. key z ≤ key y) before x ys (lower x y later) d.0,
      Descending-insert_sorted x ys d.1,
    )
  ]

  Descending-sort : (xs : List A) → Descending key (sort before xs)
  unfolding sort
  Descending-sort [] = tt
  Descending-sort (x ∷ xs) = Descending-insert_sorted x (sort before xs) (Descending-sort xs)

  All-weaken :
      (n k : ℕ) (xs : List A) → All (λ y. key y ≤ k) xs → All (λ y. key y ≤ n → key y ≤ k) xs
  All-weaken n k [] all = tt
  All-weaken n k (x ∷ xs) all = (λ h. all.0, All-weaken n k xs all.1)

  find-Descending :
      (n : ℕ) (xs : List A) (a : A)
      → Descending key xs
      → find (λ x. leb (key x) n) xs ≡ some a
      → All (λ y. key y ≤ n → key y ≤ key a) xs
  find-Descending n [] a d h = tt
  find-Descending n (x ∷ xs) a d h = elim (Bool-cases (leb (key x) n)) [
    | inl good ↦
        let e : x ≡ a = ground (arith, good) in
        subst (λ b. All (λ y. key y ≤ n → key y ≤ key b) (x ∷ xs)) e
          (λ le. omega arith, All-weaken n (key x) xs d.0)
    | inr bad ↦ ((λ le. ground arith), find-Descending n xs a d.1 (ground (arith, bad)))
  ]

  -- The first item within `n` of the sorted list has the greatest key within `n` of all the items.
  pub find-sort :
      (n : ℕ) (xs : List A) (a : A)
      → find (λ x. leb (key x) n) (sort before xs) ≡ some a
      → All (λ y. key y ≤ n → key y ≤ key a) xs
  find-sort n xs a h =
      All-of_sort (λ y. key y ≤ n → key y ≤ key a) before xs
        (find-Descending n (sort before xs) a (Descending-sort xs) h)
