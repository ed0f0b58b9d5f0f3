-- ===== src/Runtime/Variables/Quota.antt =====
-- What an owner's variables take up, before and after a commit.
use doomtp_bot.Prelude.{
  ℕ, ◌+◌, ◌≡◌, refl, ap, false, none, [], ◌∷◌, ◌==◌, nat_eq, list_eq, pair_eq, arith, inl, inr,
  Bool-cases, if◌then◌else◌,
}
use doomtp_bot.Prelude.Dict.{Dict, get, put, remove, get-put, get-remove}
use doomtp_bot.Runtime.Values.{Value, Python}
use doomtp_bot.Runtime.Ops.{Floats}
use doomtp_bot.Runtime.Variables.{VarKey, key_eq, Owner, owner_of}
use doomtp_bot.Runtime.Variables.Apply.{is_absent}
use doomtp_bot.Runtime.Variables.Memory.{lookup, size_of, staged_with, used}

-- Each key stands once, and no value is MISSING.
abbrev pub Clean : Dict VarKey Value → Type 0
Clean [] = Unit
Clean ((k, v) ∷ d) = (get k d ≡ none) × (is_absent v ≡ false) × Clean d

Clean-put :
    (k : VarKey) (v : Value) (d : Dict VarKey Value)
    → is_absent v ≡ false
    → Clean d
    → Clean (put k v d)
unfolding put
Clean-put k v [] there c = (unfold get in refl, there, tt)
Clean-put k v ((j, w) ∷ d) there c = elim (Bool-cases (j == k)) [
  | inl same ↦ rw same (ground (arith, (key_eq.same_iff j k).0 same, c.0), there, c.2)
  | inr other ↦ rw other (
    ground (arith, get-put k j v d, key_eq.same_iff j k, key_eq.same_iff k j, other, c.0),
    c.1,
    Clean-put k v d there c.2,
  )
]

Clean-remove : (k : VarKey) (d : Dict VarKey Value) → Clean d → Clean (remove k d)
unfolding remove
Clean-remove k [] c = tt
Clean-remove k ((j, w) ∷ d) c = elim (Bool-cases (j == k)) [
  | inl same ↦ rw same (Clean-remove k d c.2)
  | inr other ↦ rw other (
    ground (arith, get-remove k j d, key_eq.same_iff j k, key_eq.same_iff k j, other, c.0),
    c.1,
    Clean-remove k d c.2,
  )
]

module _ (py : Python) (fl : Floats) (json_size : Value → ℕ) where
  pub staged_with-Clean :
      (k : VarKey) (v : Value) (d : Dict VarKey Value)
      → Clean d
      → Clean (staged_with py fl json_size k v d)
  staged_with-Clean k v d c = elim (Bool-cases (is_absent v)) [
    | inl absent ↦ rw absent (Clean-remove k d c)
    | inr there ↦ rw there (Clean-put k v d there c)
  ]

  -- What a value under a key takes of an owner's quota.
  abbrev pub weight : Owner → VarKey → Value → ℕ
  weight o k v = if owner_of k == o then size_of py fl json_size v else 0

  used-put :
      (o : Owner) (k : VarKey) (v : Value) (d : Dict VarKey Value)
      → is_absent v ≡ false
      → Clean d
      → used py fl json_size o (put k v d) + weight o k (lookup d k)
        ≡ used py fl json_size o d + weight o k v
  unfolding used put get
  used-put o k v [] there c = ground (arith, there)
  used-put o k v ((j, w) ∷ d) there c = elim (Bool-cases (j == k)) [
    | inl same ↦
        let e : (owner_of j == o) ≡ (owner_of k == o) =
          ap (λ x. owner_of x == o) ((key_eq.same_iff j k).0 same) in
        rw same (ground (arith, there, c.1, e))
    | inr other ↦ rw other (ground (arith, other, used-put o k v d there c.2))
  ]

  used-remove :
      (o : Owner) (k : VarKey) (d : Dict VarKey Value)
      → Clean d
      → used py fl json_size o (remove k d) + weight o k (lookup d k) ≡ used py fl json_size o d
  unfolding used remove get
  used-remove o k [] c = ground arith
  used-remove o k ((j, w) ∷ d) c = elim (Bool-cases (j == k)) [
    | inl same ↦
        let e : (owner_of j == o) ≡ (owner_of k == o) =
          ap (λ x. owner_of x == o) ((key_eq.same_iff j k).0 same) in
        let gone : get k d ≡ none = ground (arith, (key_eq.same_iff j k).0 same, c.0) in
        rw same (ground (arith, gone, c.1, e, used-remove o k d c.2))
    | inr other ↦ rw other (ground (arith, other, used-remove o k d c.2))
  ]

  -- Where one value takes another's place, the owner's use changes by the difference.
  pub used-staged_with :
      (o : Owner) (k : VarKey) (v : Value) (d : Dict VarKey Value)
      → Clean d
      → used py fl json_size o (staged_with py fl json_size k v d) + weight o k (lookup d k)
        ≡ used py fl json_size o d + weight o k v
  used-staged_with o k v d c = elim (Bool-cases (is_absent v)) [
    | inl absent ↦ rw absent (ground (arith, absent, used-remove o k d c))
    | inr there ↦ rw there (ground (arith, there, used-put o k v d there c))
  ]
