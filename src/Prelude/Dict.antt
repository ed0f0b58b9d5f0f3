-- ===== src/Prelude/Dict.antt =====
-- Python's `dict`: an association list in insertion order. `d[k] = v` replaces a value in its place
-- and appends a new key.
pub mod Distinct
use mathlib.Core.Path.{◌≡◌, refl, subst₂}
use mathlib.Core.Logic.{inl, inr}
use mathlib.Core.Option.{Option, none, some}
use mathlib.Core.List.{List, [], ◌∷◌, map}
use native.Mathlib.Omega.{arith}
use doomtp_bot.Prelude.Tests.{if◌then◌else◌, Bool-cases, is_some}
use doomtp_bot.Prelude.Eq.{Comparable, ◌==◌, contains}

abbrev pub Dict {ℓ κ} : Type ℓ → Type κ → Type (ℓ ⊔ κ)
Dict K V = List (K × V)

module _ {ℓ κ} {K : Type ℓ} {V : Type κ} ⦃e : Comparable K⦄ where
  -- d.get(k)
  unfoldable pub get : K → Dict K V → Option V
  get k [] = none
  get k ((j, v) ∷ d) = if j == k then some v else get k d

  -- d[k] = v
  unfoldable pub put : K → V → Dict K V → Dict K V
  put k v [] = (k, v) ∷ []
  put k v ((j, w) ∷ d) = if j == k then (k, v) ∷ d else (j, w) ∷ put k v d

  -- d.pop(k, None), del d[k]
  unfoldable pub remove : K → Dict K V → Dict K V
  remove k [] = []
  remove k ((j, w) ∷ d) = if j == k then remove k d else (j, w) ∷ remove k d

  pub get-put :
      (k j : K) (v : V) (d : Dict K V) → get j (put k v d) ≡ (if k == j then some v else get j d)
  unfolding get put
  get-put k j v [] = refl
  get-put k j v ((i, w) ∷ d) =
      ground (arith, e.same_iff k j, e.same_iff i k, e.same_iff i j, get-put k j v d)

  pub get-remove :
      (k j : K) (d : Dict K V) → get j (remove k d) ≡ (if k == j then none else get j d)
  unfolding get remove
  get-remove k j [] = ground arith
  get-remove k j ((i, w) ∷ d) =
      ground (arith, e.same_iff k j, e.same_iff i k, e.same_iff i j, get-remove k j d)

  pub get-put_self : (k : K) (v : V) (d : Dict K V) → get k (put k v d) ≡ some v
  get-put_self k v d = ground (arith, get-put k k v d, e.same_iff k k)

  pub get-remove_self : (k : K) (d : Dict K V) → get k (remove k d) ≡ none
  get-remove_self k d = ground (arith, get-remove k k d, e.same_iff k k)

  -- A key is among the keys exactly if it has a value.
  pub contains-keys : (k : K) (d : Dict K V) → contains k (map (λ x. x.0) d) ≡ is_some (get k d)
  unfolding get
  contains-keys k [] = refl
  contains-keys k ((j, v) ∷ d) = ground (arith, contains-keys k d)

-- Every entry that a lookup can find meets `P`.
pub record Entries {ℓ κ μ} {K : Type ℓ} {V : Type κ} ⦃e : Comparable K⦄ (P : K → V → Type μ)
    (d : Dict K V) : Type (ℓ ⊔ κ ⊔ μ) where
  pub at : (k : K) (v : V) → get k d ≡ some v → P k v

module _ {ℓ κ μ} {K : Type ℓ} {V : Type κ} ⦃e : Comparable K⦄ {P : K → V → Type μ} where
  pub Entries-empty : Entries P []
  unfolding get
  Entries-empty = record { at = λ k v h. cc }

  pub Entries-put : (k : K) (v : V) (d : Dict K V) → Entries P d → P k v → Entries P (put k v d)
  Entries-put k v d all p = record { at = go }
    where
      go : (j : K) (w : V) → get j (put k v d) ≡ some w → P j w
      go j w h = elim (Bool-cases (k == j)) [
        | inl same ↦
            let found : some v ≡ some w = ground (arith, get-put k j v d) in
            subst₂ P ((e.same_iff k j).0 same) (cc found) p
        | inr other ↦ all.at j w (ground (arith, get-put k j v d))
      ]

  pub Entries-remove : (k : K) (d : Dict K V) → Entries P d → Entries P (remove k d)
  Entries-remove k d all = record { at = λ j w h. all.at j w (ground (arith, get-remove k j d)) }

pub ruleset dict_laws = (get-put, get-remove)
