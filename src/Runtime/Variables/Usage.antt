-- ===== src/Runtime/Variables/Usage.antt =====
-- The in-memory store's commit keeps its owners' quotas.
use mathlib.Core.Path.{subst}
use doomtp_bot.Prelude.{
  ℕ, ◌+◌, ◌≤◌, ◌≡◌, refl, sym, ap, true, some, List, [], ◌∷◌, Text, ◌==◌, nat_eq, list_eq, pair_eq,
  arith, inl, inr, ◌⊎◌, Bool-cases, Option-cases, or_default,
}
use doomtp_bot.Prelude.Int.{ℤ, pos, ◌+ℤ◌, ◌-ℤ◌, pos_part, neg_part, int_lt, sub_ℕ}
use doomtp_bot.Prelude.Dict.{Dict, get, put, get-put}
use doomtp_bot.Runtime.Values.{Value, Python}
use doomtp_bot.Runtime.Result.{returned, >>=-returned}
use doomtp_bot.Runtime.Ops.{Floats}
use doomtp_bot.Runtime.Variables.{VarKey, key_eq, Owner, owner_of, Limits, check_quota, WriteOp}
use doomtp_bot.Runtime.Variables.Apply.{apply_op}
use doomtp_bot.Runtime.Variables.Memory.{
  Memory, lookup, size_of, staged_with, grown_with, check_cap, used, stage_one, stage, check_owners,
  commit_writes,
}
use doomtp_bot.Runtime.Variables.Quota.{Clean, staged_with-Clean, used-staged_with}

-- How much an owner has grown, by the notes of the loop.
abbrev net : Owner → Dict Owner ℤ → ℤ
net o grown = or_default (get o grown) (pos 0)

sub_ℕ-parts : (m n : ℕ) → pos_part (sub_ℕ m n) + n ≡ neg_part (sub_ℕ m n) + m
sub_ℕ-parts m n = ground arith

-- g + a - b, part by part.
parts_of :
    (g : ℤ) (a b : ℕ)
    → pos_part (g +ℤ pos a -ℤ pos b) + neg_part g + b
      ≡ neg_part (g +ℤ pos a -ℤ pos b) + pos_part g + a
unfolding ◌+ℤ◌ ◌-ℤ◌
parts_of g a b = ground arith

module _ (py : Python) (fl : Floats) (json_size : Value → ℕ) where
  -- What the loop noted of each owner is how its use of the copy differs from that of the store.
  record Balanced (d : Dict VarKey Value) (now : Dict VarKey Value × Dict Owner ℤ) : Type 0 where
    pub clean : Clean now.0
    pub balance :
        (o : Owner)
        → used py fl json_size o now.0 + neg_part (net o now.1)
          ≡ used py fl json_size o d + pos_part (net o now.1)

  step-Balanced :
      (d staged : Dict VarKey Value) (grown : Dict Owner ℤ) (k : VarKey) (v : Value)
      → Balanced d (staged, grown)
      → Balanced d (
        staged_with py fl json_size k v staged,
        grown_with py fl json_size (owner_of k) (lookup staged k) v grown,
      )
  step-Balanced d staged grown k v b = record {
    clean = staged_with-Clean py fl json_size k v staged b.clean;
    balance = after;
  }
    where
      a : ℕ
      a = size_of py fl json_size v

      c : ℕ
      c = size_of py fl json_size (lookup staged k)

      change : ℤ
      change = net (owner_of k) grown +ℤ pos a -ℤ pos c

      after :
          (o : Owner)
          → used py fl json_size o (staged_with py fl json_size k v staged)
              + neg_part (net o (put (owner_of k) change grown))
            ≡ used py fl json_size o d + pos_part (net o (put (owner_of k) change grown))
      after o = elim (Bool-cases (owner_of k == o)) [
        | inl same ↦
            let e : owner_of k ≡ o =
              ((pair_eq {A = Text} {B = Text}).same_iff (owner_of k) o).0 same in
            ground (
              arith,
              same,
              b.balance o,
              ap (λ x. net x grown) e,
              parts_of (net (owner_of k) grown) a c,
              used-staged_with py fl json_size o k v staged b.clean,
              get-put (owner_of k) o change grown,
            )
        | inr other ↦ ground (
          arith,
          other,
          b.balance o,
          used-staged_with py fl json_size o k v staged b.clean,
          get-put (owner_of k) o change grown,
        )
      ]

  stage_one-Balanced :
      (limits : Limits) (op : WriteOp) (d : Dict VarKey Value)
      (now next : Dict VarKey Value × Dict Owner ℤ)
      → Balanced d now
      → stage_one py fl json_size limits op now ≡ returned next
      → Balanced d next
  unfolding stage_one
  stage_one-Balanced limits op d (staged, grown) next b h =
      let (v, applied, rest) =
        >>=-returned (apply_op py fl (lookup staged op.key) op.kind op.path limits) _ next h in
      let (u, capped, last) = >>=-returned (check_cap py fl json_size v limits) _ next rest in
      let e : (
        staged_with py fl json_size op.key v staged,
        grown_with py fl json_size (owner_of op.key) (lookup staged op.key) v grown,
      )
          ≡ next =
        cc last in
      subst (Balanced d) e (step-Balanced d staged grown op.key v b)

  stage-Balanced :
      (limits : Limits) (ops : List WriteOp) (d : Dict VarKey Value)
      (now last : Dict VarKey Value × Dict Owner ℤ)
      → Balanced d now
      → stage py fl json_size limits ops now ≡ returned last
      → Balanced d last
  unfolding stage
  stage-Balanced limits [] d now last b h = subst (Balanced d) (cc h) b
  stage-Balanced limits (op ∷ ops) d now last b h =
      let (next, made, rest) = >>=-returned (stage_one py fl json_size limits op now) _ last h in
      stage-Balanced limits ops d next last (stage_one-Balanced limits op d now next b made) rest

  check_owners-returned :
      (limits : Limits) (d : Dict VarKey Value) (grown : Dict Owner ℤ)
      → check_owners py fl json_size limits d grown ≡ returned tt
      → (o : Owner) (g : ℤ) → get o grown ≡ some g
      → int_lt (pos 0) g ≡ true
      → used py fl json_size o d ≤ limits.quota_bytes
  unfolding check_owners get check_quota
  check_owners-returned limits d [] h o g found grew = absurd (cc found)
  check_owners-returned limits d ((owner, delta) ∷ grown) h o g found grew =
      let (u, fits, rest) =
        >>=-returned (check_quota (used py fl json_size owner d) (int_lt (pos 0) delta) limits) _ tt
          h in
      elim (Bool-cases (owner == o)) [
        | inl same ↦
            let e : owner ≡ o = ((pair_eq {A = Text} {B = Text}).same_iff owner o).0 same in
            ground (arith, same, found, grew, fits, ap (λ x. used py fl json_size x d) e)
        | inr other ↦
            check_owners-returned limits d grown rest o g (ground (arith, other, found)) grew
      ]

  start-Balanced : (d : Dict VarKey Value) → Clean d → Balanced d (d, [])
  unfolding get
  start-Balanced d c = record { clean = c; balance = λ o. refl }

  within :
      (limits : Limits) (d staged : Dict VarKey Value) (grown : Dict Owner ℤ)
      → Balanced d (staged, grown)
      → check_owners py fl json_size limits staged grown ≡ returned tt
      → (o : Owner)
      → (used py fl json_size o staged ≤ limits.quota_bytes)
        ⊎ (used py fl json_size o staged ≤ used py fl json_size o d)
  within limits d staged grown b fits o = elim (Option-cases (get o grown)) [
    | inl still ↦ inr (ground (arith, still, b.balance o))
    | inr (g, noted) ↦ elim (Bool-cases (int_lt (pos 0) g)) [
      | inl grew ↦ inl (check_owners-returned limits staged grown fits o g noted grew)
      | inr shrank ↦ inr (ground (arith, noted, shrank, b.balance o))
    ]
  ]

  -- After a commit to a clean store, each owner's variables fit its quota or take no more than before,
  -- and the store is clean.
  pub commit_writes-quota :
      (ops : List WriteOp) (m m' : Memory)
      → Clean m.stored
      → commit_writes py fl json_size ops m ≡ returned m'
      → Clean m'.stored
        × ((o : Owner)
            → (used py fl json_size o m'.stored ≤ m.caps.quota_bytes)
              ⊎ (used py fl json_size o m'.stored ≤ used py fl json_size o m.stored))
  unfolding commit_writes
  commit_writes-quota ops m m' c h =
      let ((staged, grown), made, rest) =
        >>=-returned (stage py fl json_size m.caps ops (m.stored, [])) _ m' h in
      let (u, fits, last) =
        >>=-returned (check_owners py fl json_size m.caps staged grown) _ m' rest in
      let b =
        stage-Balanced m.caps ops m.stored (m.stored, []) (staged, grown)
          (start-Balanced m.stored c) made in
      let same : record m { stored = staged } ≡ m' = cc last in
      rw (sym same) (b.clean, λ o. within m.caps m.stored staged grown b fits o)
