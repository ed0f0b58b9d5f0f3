-- ===== src/Runtime/Variables/Replay.antt =====
-- What a session buffered, replayed on the stored variables: the writes of a session and of the store
-- are the same function, so they agree.
use doomtp_bot.Prelude.{
  ◌≡◌, refl, sym, ap, ◌∙◌, true, List, [], ◌∷◌, ◌++◌, ◌==◌, nat_eq, list_eq, pair_eq, arith, inl,
  inr, Bool-cases, if◌then◌else◌, ℕ,
}
use doomtp_bot.Prelude.Int.{ℤ}
use doomtp_bot.Prelude.Dict.{Dict, get-put, get-remove}
use doomtp_bot.Runtime.Values.{Value, missing, Python}
use doomtp_bot.Runtime.Result.{returned, ◌>>=◌, >>=-returned, Outcome-cases}
use doomtp_bot.Runtime.Ops.{Floats}
use doomtp_bot.Runtime.Variables.{VarKey, key_eq, Owner, Limits, WriteOp}
use doomtp_bot.Runtime.Variables.Apply.{apply_op, is_absent}
use doomtp_bot.Runtime.Variables.Session.{
  VariableStore, VariableSession, read, try_write, check_write,
}
use doomtp_bot.Runtime.Variables.Memory.{
  Memory, lookup, stage_one, stage, staged_with, check_cap, memory_store,
}

is_absent-missing : (v : Value) → is_absent v ≡ true → v ≡ missing
is_absent-missing v h = grind arith

module _ (py : Python) (fl : Floats) (json_size : Value → ℕ) where
  pub stage-append :
      (limits : Limits) (ops : List WriteOp) (op : WriteOp) (now : Dict VarKey Value × Dict Owner ℤ)
      → stage py fl json_size limits (ops ++ (op ∷ [])) now
        ≡ (stage py fl json_size limits ops now >>= stage_one py fl json_size limits op)
  unfolding stage
  stage-append limits [] op now = elim (Outcome-cases (stage_one py fl json_size limits op now)) [
    | inl (e, failed) ↦ rw failed refl
    | inr (next, made) ↦ rw made refl
  ]
  stage-append limits (o ∷ ops) op now =
      elim (Outcome-cases (stage_one py fl json_size limits o now)) [
        | inl (e, failed) ↦ rw failed refl
        | inr (next, made) ↦ rw made (stage-append limits ops op next)
      ]

  pub lookup-staged_with :
      (key j : VarKey) (v : Value) (d : Dict VarKey Value)
      → lookup (staged_with py fl json_size key v d) j ≡ (if key == j then v else lookup d j)
  lookup-staged_with key j v d = elim (Bool-cases (is_absent v)) [
    | inl absent ↦
        let e = is_absent-missing v absent in ground (arith, absent, e, get-remove key j d)
    | inr there ↦ ground (arith, there, get-put key j v d)
  ]

  abbrev pub store : VariableStore Memory
  store = memory_store py fl json_size

  -- What a write that a session took says of the value it made.
  pub try_write-returned :
      (m : Memory) (s : VariableSession) (op : WriteOp) (limits : Limits) (v : Value)
      → try_write store py fl json_size m s op limits ≡ returned v
      → (apply_op py fl (read store m s op.key) op.kind op.path limits ≡ returned v)
        × (check_cap py fl json_size v limits ≡ returned tt)
  unfolding try_write
  try_write-returned m s op limits v h =
      let (w, applied, rest) =
        >>=-returned (apply_op py fl (read store m s op.key) op.kind op.path limits) _ v h in
      let (u, checked, last) =
        >>=-returned (check_write store py fl json_size m s op.key limits (read store m s op.key) w)
          _ v rest in
      let same : w ≡ v = cc last in (applied ∙ ap returned same, rw (sym same) (cap_of w u checked))
    where
      cap_of :
          (w : Value) (u : Unit {0})
          → check_write store py fl json_size m s op.key limits (read store m s op.key) w
            ≡ returned u
          → check_cap py fl json_size w limits ≡ returned tt
      cap_of w u checked = elim (Bool-cases (is_absent w)) [
        | inl absent ↦ rw absent refl
        | inr there ↦ rw there (ground (arith, there, checked))
      ]
