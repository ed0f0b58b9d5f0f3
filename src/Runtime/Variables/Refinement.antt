-- ===== src/Runtime/Variables/Refinement.antt =====
-- A session over the in-memory store shows what the store holds once the session is committed.
use mathlib.Core.Path.{subst}
use doomtp_bot.Prelude.{
  ◌≡◌, refl, sym, ap, ◌∙◌, some, List, [], ◌∷◌, nat_eq, list_eq, pair_eq, arith, inl, inr, ◌⊎◌,
  Option-cases, ℕ,
}
use doomtp_bot.Prelude.Int.{ℤ}
use doomtp_bot.Prelude.Dict.{Dict, get, get-put}
use doomtp_bot.Runtime.Values.{Value, Python}
use doomtp_bot.Runtime.Result.{Outcome, raised, returned, Outcome-cases, variable_error, e_quota}
use doomtp_bot.Runtime.Ops.{Floats}
use doomtp_bot.Runtime.Variables.{VarKey, key_eq, Owner, owner_of, Limits, check_quota, WriteOp}
use doomtp_bot.Runtime.Variables.Apply.{apply_op}
use doomtp_bot.Runtime.Variables.Session.{
  VariableSession, new_session, read, limits_of, try_write, buffered, buffer, discard, commit,
  written,
}
use doomtp_bot.Runtime.Variables.Memory.{
  Memory, lookup, stage_one, stage, staged_with, grown_with, check_cap, check_owners, commit_writes,
}
use doomtp_bot.Runtime.Variables.Replay.{
  store, stage-append, lookup-staged_with, try_write-returned,
}

module _ (py : Python) (fl : Floats) (json_size : Value → ℕ) where
  -- The session's writes, replayed on what is stored, end where the session reads; and the limits that
  -- it noted are the store's.
  pub record Follows (m : Memory) (s : VariableSession) : Type 0 where
    pub staged : Dict VarKey Value
    pub grown : Dict Owner ℤ
    pub replayed : stage py fl json_size m.caps s.ops (m.stored, []) ≡ returned (staged, grown)
    pub same_reads : (k : VarKey) → lookup staged k ≡ read (store py fl json_size) m s k
    pub same_limits : (o : Owner) (l : Limits) → get o s.limits ≡ some l → l ≡ m.caps

  no_entry : (o : Owner) (l l' : Limits) → get o [] ≡ some l → l ≡ l'
  unfolding get
  no_entry o l l' h = absurd (cc h)

  new_session-Follows : (m : Memory) → Follows m new_session
  new_session-Follows m = record {
    staged = m.stored;
    grown = [];
    replayed = unfold stage in refl;
    same_reads = λ k. unfold read get in refl;
    same_limits = λ o l h. no_entry o l m.caps h;
  }

  limits_of-Follows :
      (key : VarKey) (m : Memory) (s : VariableSession)
      → Follows m s
      → Follows m (limits_of (store py fl json_size) key m s).0
        × ((limits_of (store py fl json_size) key m s).1 ≡ m.caps)
  unfolding limits_of
  limits_of-Follows key m s f = elim (Option-cases (get (owner_of key) s.limits)) [
    | inr (limits, noted) ↦ rw (noted, limits_of) (f, f.same_limits (owner_of key) limits noted)
    | inl fresh ↦
        rw (fresh, limits_of)
          (
            record {
              staged = f.staged;
              grown = f.grown;
              replayed = f.replayed;
              same_reads = λ k. f.same_reads k ∙ (unfold read in refl);
              same_limits = λ o l h.
                  ground (arith, h, get-put (owner_of key) o m.caps s.limits, f.same_limits o l);
            },
            refl,
          )
  ]

  stage_one-returned :
      (limits : Limits) (op : WriteOp) (d : Dict VarKey Value) (grown : Dict Owner ℤ) (v : Value)
      → apply_op py fl (lookup d op.key) op.kind op.path limits ≡ returned v
      → check_cap py fl json_size v limits ≡ returned tt
      → stage_one py fl json_size limits op (d, grown)
        ≡ returned (
          staged_with py fl json_size op.key v d,
          grown_with py fl json_size (owner_of op.key) (lookup d op.key) v grown,
        )
  unfolding stage_one
  stage_one-returned limits op d grown v applied capped = rw applied (rw capped refl)

  buffered-Follows :
      (op : WriteOp) (m : Memory) (s : VariableSession) (v : Value)
      → Follows m s
      → try_write (store py fl json_size) py fl json_size m s op m.caps ≡ returned v
      → Follows m (buffered (store py fl json_size) py fl json_size s op (returned v)).0
  buffered-Follows op m s v f h =
      let (applied, capped) = try_write-returned py fl json_size m s op m.caps v h in
      let at_key : apply_op py fl (lookup f.staged op.key) op.kind op.path m.caps ≡ returned v =
        rw (f.same_reads op.key) applied in
      record {
        staged = staged_with py fl json_size op.key v f.staged;
        grown = grown_with py fl json_size (owner_of op.key) (lookup f.staged op.key) v f.grown;
        replayed =
            stage-append py fl json_size m.caps s.ops op (m.stored, [])
            ∙ rw f.replayed (stage_one-returned m.caps op f.staged f.grown v at_key capped);
        same_reads = λ k.
            unfold read in
            ground (
              arith,
              lookup-staged_with py fl json_size op.key k v f.staged,
              get-put op.key k v s.overlay,
              f.same_reads k,
            );
        same_limits = f.same_limits;
      }

  -- Whether it returned or raised, a write leaves the session in step with the store.
  pub buffer-Follows :
      (op : WriteOp) (m : Memory) (s : VariableSession)
      → Follows m s
      → Follows m (buffer (store py fl json_size) py fl json_size op m s).0
  unfolding buffer
  buffer-Follows op m s f =
      let (noted, caps) = limits_of-Follows op.key m s f in
      let session = (limits_of (store py fl json_size) op.key m s).0 in
      rw caps
        (elim (Outcome-cases
          (try_write (store py fl json_size) py fl json_size m session op m.caps)) [
            | inl (e, failed) ↦ rw failed noted
            | inr (v, made) ↦ rw made (buffered-Follows op m session v noted made)
          ])

  -- A session after some attempted writes.
  unfoldable pub buffer_all : List WriteOp → Memory → VariableSession → VariableSession
  buffer_all [] m s = s
  buffer_all (op ∷ ops) m s =
      buffer_all ops m (buffer (store py fl json_size) py fl json_size op m s).0

  buffer_all-Follows :
      (ops : List WriteOp) (m : Memory) (s : VariableSession)
      → Follows m s
      → Follows m (buffer_all ops m s)
  unfolding buffer_all
  buffer_all-Follows [] m s f = f
  buffer_all-Follows (op ∷ ops) m s f = buffer_all-Follows ops m _ (buffer-Follows op m s f)

  check_owners-cases :
      (limits : Limits) (d : Dict VarKey Value) (grown : Dict Owner ℤ)
      → (check_owners py fl json_size limits d grown ≡ returned tt)
        ⊎ (check_owners py fl json_size limits d grown ≡ raised (variable_error e_quota))
  unfolding check_owners check_quota
  check_owners-cases limits d [] = inl refl
  check_owners-cases limits d ((owner, delta) ∷ grown) =
      let rest = check_owners-cases limits d grown in ground (arith, rest)

  commit_writes-cases :
      (m : Memory) (s : VariableSession)
      → (f : Follows m s)
      → (commit_writes py fl json_size s.ops m ≡ raised (variable_error e_quota))
        ⊎ (commit_writes py fl json_size s.ops m ≡ returned (record m { stored = f.staged }))
  unfolding commit_writes
  commit_writes-cases m s f = elim (check_owners-cases m.caps f.staged f.grown) [
    | inl fits ↦ inr (rw f.replayed (rw fits refl))
    | inr full ↦ inl (rw f.replayed (rw full refl))
  ]

  -- What a commit of a session makes of the memory and of the session.
  pub data Committed (m : Memory) (s : VariableSession)
      : Memory × VariableSession × Outcome (List WriteOp) → Type 0 where
    over_quota : Committed m s (m, s, raised (variable_error e_quota))
    kept :
        (m' : Memory)
        → ((k : VarKey) → lookup m'.stored k ≡ read (store py fl json_size) m s k)
        → Committed m s (m', discard (store py fl json_size) s, returned s.ops)

  nothing_buffered :
      (m : Memory) (s : VariableSession) → (f : Follows m s) → s.ops ≡ [] → f.staged ≡ m.stored
  unfolding stage
  nothing_buffered m s f e =
      let done : stage py fl json_size m.caps [] (m.stored, []) ≡ returned (f.staged, f.grown) =
        subst
          (λ ops. stage py fl json_size m.caps ops (m.stored, []) ≡ returned (f.staged, f.grown)) e
          f.replayed in
      cc done

  written-cases :
      (m : Memory) (s : VariableSession) (ops : List WriteOp)
      → Follows m s
      → s.ops ≡ ops
      → (written (store py fl json_size) m ops ≡ raised (variable_error e_quota))
        ⊎ ((m' : Memory) × (written (store py fl json_size) m ops ≡ returned m')
            × ((k : VarKey) → lookup m'.stored k ≡ read (store py fl json_size) m s k))
  written-cases m s [] f e =
      inr (m, refl, λ k. ap (λ d. lookup d k) (sym (nothing_buffered m s f e)) ∙ f.same_reads k)
  written-cases m s (op ∷ ops) f e = elim (commit_writes-cases m s f) [
    | inl full ↦ inl (rw (sym e) full)
    | inr made ↦ inr (record m { stored = f.staged }, rw (sym e) made, f.same_reads)
  ]

  commit-Committed :
      (m : Memory) (s : VariableSession)
      → Follows m s
      → Committed m s (commit (store py fl json_size) m s)
  unfolding commit
  commit-Committed m s f = elim (written-cases m s s.ops f refl) [
    | inl full ↦ rw full over_quota
    | inr (m', made, same) ↦ rw made (kept m' same)
  ]

  -- A session that was opened on a memory and has attempted any writes, each taken or refused, commits in
  -- one of two ways: nothing changes and E_QUOTA is raised, or every variable then holds what the session
  -- read of it before, and the session is empty.
  pub buffer_all-Committed :
      (ops : List WriteOp) (m : Memory)
      → Committed m
          (buffer_all ops m new_session)
          (commit (store py fl json_size) m (buffer_all ops m new_session))
  buffer_all-Committed ops m =
      commit-Committed m _ (buffer_all-Follows ops m new_session (new_session-Follows m))
