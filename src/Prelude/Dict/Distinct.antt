-- ===== src/Prelude/Dict/Distinct.antt =====
-- Dictionaries hold each key once: what a comprehension over the entries leaves of a lookup.
use mathlib.Core.Path.{◌≡◌, refl}
use mathlib.Core.Logic.{inl, inr}
use mathlib.Core.Bool.{Bool}
use mathlib.Core.Option.{Option, none, some}
use mathlib.Core.List.{[], ◌∷◌}
use native.Mathlib.Omega.{arith}
use doomtp_bot.Prelude.Tests.{if◌then◌else◌, Bool-cases}
use doomtp_bot.Prelude.Lists.{keep}
use doomtp_bot.Prelude.Eq.{Comparable, ◌==◌}
use doomtp_bot.Prelude.Dict.{Dict, get, put, get-put}

-- What is left of a value under a test.
abbrev pub only {ℓ} : {V : Type ℓ} → (V → Bool) → Option V → Option V
only q none = none
only q (some v) = if q v then some v else none

module _ {ℓ κ} {K : Type ℓ} {V : Type κ} ⦃e : Comparable K⦄ where
  abbrev pub Distinct : Dict K V → Type κ
  Distinct [] = Unit
  Distinct ((k, v) ∷ d) = (get k d ≡ none) × Distinct d

  pub Distinct-put : (k : K) (v : V) (d : Dict K V) → Distinct d → Distinct (put k v d)
  unfolding put
  Distinct-put k v [] u = (unfold get in refl, tt)
  Distinct-put k v ((j, w) ∷ d) u = elim (Bool-cases (j == k)) [
    | inl same ↦ rw same (ground (arith, (e.same_iff j k).0 same, u.0), u.1)
    | inr other ↦ rw other (
      ground (arith, get-put k j v d, e.same_iff k j, e.same_iff j k, other, u.0),
      Distinct-put k v d u.1,
    )
  ]

  get-keep-none :
      (q : V → Bool) (k : K) (d : Dict K V) → get k d ≡ none → get k (keep (λ x. q x.1) d) ≡ none
  unfolding get
  get-keep-none q k [] h = refl
  get-keep-none q k ((j, w) ∷ d) h =
      let ih = get-keep-none q k d in
      elim (Bool-cases (q w)) [
        | inl good ↦ rw (good, keep) (ground (arith, ih))
        | inr bad ↦ rw (bad, keep) (ground (arith, ih))
      ]

  pub Distinct-keep : (q : V → Bool) (d : Dict K V) → Distinct d → Distinct (keep (λ x. q x.1) d)
  Distinct-keep q [] u = tt
  Distinct-keep q ((j, w) ∷ d) u = elim (Bool-cases (q w)) [
    | inl good ↦ rw (good, keep) (get-keep-none q j d u.0, Distinct-keep q d u.1)
    | inr bad ↦ rw (bad, keep) (Distinct-keep q d u.1)
  ]

  -- `{k: v for k, v in d.items() if q(v)}[k]` is `d[k]` where its value passes the test.
  pub get-keep :
      (q : V → Bool) (k : K) (d : Dict K V)
      → Distinct d
      → get k (keep (λ x. q x.1) d) ≡ only q (get k d)
  unfolding get
  get-keep q k [] u = refl
  get-keep q k ((j, w) ∷ d) u = elim (Bool-cases (q w)) [
    | inl good ↦ rw (good, keep) (ground (arith, good, get-keep q k d u.1))
    | inr bad ↦
        rw (bad, keep)
          (ground (arith, bad, get-keep q k d u.1, get-keep-none q j d u.0, e.same_iff j k))
  ]
