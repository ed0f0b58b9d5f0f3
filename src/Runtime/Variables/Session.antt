-- ===== src/Runtime/Variables/Session.antt =====
-- runtime/variables.py: VariableSession, the write buffer of a run, over a store; and DeclaredVariables,
-- a built-in's view of it. Reads give the value itself, as no caller can change it.
use doomtp_bot.Prelude.{
  ℕ, not, ◌&&◌, none, some, List, [], ◌∷◌, ◌++◌, Text, leb, ◌==◌, nat_eq, list_eq, pair_eq,
  contains, length, points, if◌then◌else◌,
}
use doomtp_bot.Prelude.Dict.{Dict, get, put}
use doomtp_bot.Runtime.Values.{Value, Python}
use doomtp_bot.Runtime.Result.{
  Outcome, raised, returned, ◌>>=◌, variable_error, not_declared, e_too_many_names,
}
use doomtp_bot.Runtime.Ops.{Floats}
use doomtp_bot.Runtime.Variables.{
  VarKey, key_eq, Space, space_eq, space_of, Owner, owner_of, Limits, check_value_cap, WriteOp,
  label,
}
use doomtp_bot.Runtime.Variables.Apply.{apply_op, is_absent}

-- VariableStore, of a state S: what it has stored, and the atomic commit of some writes.
pub record VariableStore {ℓ} (S : Type ℓ) : Type ℓ where
  pub fetch : S → VarKey → Value
  pub names_in : S → Space → List Text
  pub limits_for : S → Owner → Limits
  pub apply_all : List WriteOp → S → Outcome S

pub record VariableSession : Type 0 where
  pub ops : List WriteOp
  pub overlay : Dict VarKey Value
  pub limits : Dict Owner Limits

abbrev pub new_session : VariableSession
new_session = record { ops = []; overlay = []; limits = [] }

-- {*xs, x}
abbrev pub with_name : Text → List Text → List Text
with_name x xs = if contains x xs then xs else x ∷ xs

-- The names of a space that the overlay holds, joined to some names.
unfoldable pub with_overlay : Space → Dict VarKey Value → List Text → List Text
with_overlay space [] names = names
with_overlay space ((k, v) ∷ overlay) names =
    let rest = with_overlay space overlay names in
    if not (is_absent v) && (space_of k == space) then with_name k.name rest else rest

module _ {ℓ} {S : Type ℓ} (st : VariableStore S) where
  -- session.limits(key)
  unfoldable pub limits_of : VarKey → S → VariableSession → VariableSession × Limits
  limits_of key s session = elim (get (owner_of key) session.limits) [
    | some limits ↦ (session, limits)
    | none ↦ (
      record session {
        limits = put (owner_of key) (st.limits_for s (owner_of key)) session.limits;
      },
      st.limits_for s (owner_of key),
    )
  ]

  -- session.get(key)
  unfoldable pub read : S → VariableSession → VarKey → Value
  read s session key = elim (get key session.overlay) [ some v ↦ v | none ↦ st.fetch s key ]

  -- The limit on the names of a space, where a write makes a new name.
  unfoldable pub check_names : S → VariableSession → VarKey → Limits → Outcome (Unit {0})
  check_names s session key limits =
      let names = with_overlay (space_of key) session.overlay (st.names_in s (space_of key)) in
      if not (contains key.name names) && leb limits.names_per_space (length names)
      then raised (variable_error e_too_many_names)
      else returned tt

  module _ (py : Python) (fl : Floats) (json_size : Value → ℕ) where
    abbrev pub check_write :
        S → VariableSession → VarKey → Limits → Value → Value → Outcome (Unit {0})
    check_write s session key limits current v =
        if is_absent v
        then returned tt
        else check_value_cap (json_size v) limits >>= λ _.
            if is_absent current then check_names s session key limits else returned tt

    -- The value that a write makes, or what it raises, for the limits at hand.
    unfoldable pub try_write : S → VariableSession → WriteOp → Limits → Outcome Value
    try_write s session op limits =
        apply_op py fl (read s session op.key) op.kind op.path limits >>= λ v.
        check_write s session op.key limits (read s session op.key) v >>= λ _. returned v

    abbrev pub buffered :
        VariableSession → WriteOp → Outcome Value → VariableSession × Outcome Value
    buffered session op (raised e) = (session, raised e)
    buffered session op (returned v) = (
      record session { ops = session.ops ++ (op ∷ []); overlay = put op.key v session.overlay },
      returned v,
    )

    -- session.buffer(op)
    unfoldable pub buffer : WriteOp → S → VariableSession → VariableSession × Outcome Value
    buffer op s session =
        let (noted, limits) = limits_of op.key s session in
        buffered noted op (try_write s noted op limits)

  abbrev pub discard : VariableSession → VariableSession
  discard session = record session { ops = []; overlay = [] }

  abbrev pub committed :
      S → VariableSession → Outcome S → S × VariableSession × Outcome (List WriteOp)
  committed s session (raised e) = (s, session, raised e)
  committed s session (returned s') = (s', discard session, returned session.ops)

  abbrev pub written : S → List WriteOp → Outcome S
  written s [] = returned s
  written s (op ∷ ops) = st.apply_all (op ∷ ops) s

  -- session.commit(ctx)
  unfoldable pub commit : S → VariableSession → S × VariableSession × Outcome (List WriteOp)
  commit s session = committed s session (written s session.ops)

  -- DeclaredVariables: what a built-in's spec declares.
  pub record Declared : Type 0 where
    pub reads : List Text
    pub writes : List Text

  -- _check
  unfoldable pub check_declared : VarKey → List Text → Outcome (Unit {0})
  check_declared key declared =
      if not (contains (points "*") declared) && not (contains (label key) declared)
      then raised not_declared
      else returned tt

  -- get and buffer of the view
  unfoldable pub read_declared : Declared → S → VariableSession → VarKey → Outcome Value
  read_declared d s session key =
      check_declared key (d.reads ++ d.writes) >>= λ _. returned (read s session key)

  module _ (py : Python) (fl : Floats) (json_size : Value → ℕ) where
    abbrev when_declared :
        VariableSession
        → Outcome (Unit {0})
        → VariableSession × Outcome Value
        → VariableSession × Outcome Value
    when_declared session (raised e) done = (session, raised e)
    when_declared session (returned u) done = done

    unfoldable pub buffer_declared :
        Declared → WriteOp → S → VariableSession → VariableSession × Outcome Value
    buffer_declared d op s session =
        when_declared session (check_declared op.key d.writes) (buffer py fl json_size op s session)
