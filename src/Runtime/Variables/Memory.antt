-- ===== src/Runtime/Variables/Memory.antt =====
-- runtime/variables.py: InMemoryVariableStore, which applies the writes of a run to a copy of its
-- dictionary and keeps the copy where every check passes.
use doomtp_bot.Prelude.{
  ℕ, ◌+◌, List, [], ◌∷◌, Text, ◌==◌, nat_eq, list_eq, pair_eq, if◌then◌else◌, or_default,
}
use doomtp_bot.Prelude.Int.{ℤ, pos, ◌+ℤ◌, ◌-ℤ◌, int_lt}
use doomtp_bot.Prelude.Dict.{Dict, get, put, remove}
use doomtp_bot.Runtime.Values.{Value, Python}
use doomtp_bot.Runtime.Result.{Outcome, returned, ◌>>=◌}
use doomtp_bot.Runtime.Ops.{Floats, found_or_missing}
use doomtp_bot.Runtime.Variables.{
  VarKey, key_eq, Space, space_eq, space_of, Owner, owner_of, Limits, check_value_cap, check_quota,
  WriteOp,
}
use doomtp_bot.Runtime.Variables.Apply.{apply_op, is_absent}
use doomtp_bot.Runtime.Variables.Session.{VariableStore, with_name}

pub record Memory : Type 0 where
  pub stored : Dict VarKey Value
  pub caps : Limits

-- data.get(key, MISSING)
abbrev pub lookup : Dict VarKey Value → VarKey → Value
lookup d key = found_or_missing (get key d)

-- {k.name for k in self.data if Space(…) == space}
unfoldable pub names_of_space : Space → Dict VarKey Value → List Text
names_of_space space [] = []
names_of_space space ((k, v) ∷ d) =
    let rest = names_of_space space d in if space_of k == space then with_name k.name rest else rest

module _ (py : Python) (fl : Floats) (json_size : Value → ℕ) where
  abbrev pub size_of : Value → ℕ
  size_of v = if is_absent v then 0 else json_size v

  abbrev pub staged_with : VarKey → Value → Dict VarKey Value → Dict VarKey Value
  staged_with key v d = if is_absent v then remove key d else put key v d

  abbrev pub grown_with : Owner → Value → Value → Dict Owner ℤ → Dict Owner ℤ
  grown_with owner current v grown =
      put owner (or_default (get owner grown) (pos 0) +ℤ pos (size_of v) -ℤ pos (size_of current))
        grown

  abbrev pub check_cap : Value → Limits → Outcome (Unit {0})
  check_cap v limits = if is_absent v then returned tt else check_value_cap (json_size v) limits

  -- One turn of the loop over the writes.
  unfoldable pub stage_one :
      Limits
      → WriteOp
      → Dict VarKey Value × Dict Owner ℤ
      → Outcome (Dict VarKey Value × Dict Owner ℤ)
  stage_one limits op (staged, grown) =
      apply_op py fl (lookup staged op.key) op.kind op.path limits >>= λ v.
      check_cap v limits >>= λ _.
      returned
        (staged_with op.key v staged, grown_with (owner_of op.key) (lookup staged op.key) v grown)

  unfoldable pub stage :
      Limits
      → List WriteOp
      → Dict VarKey Value × Dict Owner ℤ
      → Outcome (Dict VarKey Value × Dict Owner ℤ)
  stage limits [] now = returned now
  stage limits (op ∷ ops) now = stage_one limits op now >>= λ next. stage limits ops next

  -- sum(json_size(v) for k, v in staged.items() if owner_of(k) == owner)
  unfoldable pub used : Owner → Dict VarKey Value → ℕ
  used owner [] = 0
  used owner ((k, v) ∷ d) =
      let rest = used owner d in if owner_of k == owner then json_size v + rest else rest

  -- The loop over the owners that grew or shrank.
  unfoldable pub check_owners : Limits → Dict VarKey Value → Dict Owner ℤ → Outcome (Unit {0})
  check_owners limits staged [] = returned tt
  check_owners limits staged ((owner, delta) ∷ grown) =
      check_quota (used owner staged) (int_lt (pos 0) delta) limits >>= λ _.
      check_owners limits staged grown

  -- commit
  unfoldable pub commit_writes : List WriteOp → Memory → Outcome Memory
  commit_writes ops m = stage m.caps ops (m.stored, []) >>= λ (staged, grown).
      check_owners m.caps staged grown >>= λ _. returned (record m { stored = staged })

  -- The store as the session sees it.
  abbrev pub memory_store : VariableStore Memory
  memory_store = record {
    fetch = λ m key. lookup m.stored key;
    names_in = λ m space. names_of_space space m.stored;
    limits_for = λ m owner. m.caps;
    apply_all = commit_writes;
  }
