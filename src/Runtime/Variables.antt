-- ===== src/Runtime/Variables.antt =====
-- runtime/variables.py and the names of runtime/namespaces.py: keys, limits and the checks on them.
pub mod Names
pub mod Apply
pub mod Session
pub mod Memory
pub mod Replay
pub mod Refinement
pub mod Quota
pub mod Usage
use doomtp_bot.Prelude.{
  ℕ, ◌+◌, ◌-◌, ◌*◌, ◌≡◌, ◌↔◌, refl, String, Bool, true, false, not, ◌&&◌, ◌||◌, Option, none, some,
  List, [], ◌∷◌, ◌++◌, Text, ltb, leb, eqb, ◌==◌, nat_eq, list_eq, list_beq, list_beq_iff,
  Comparable, contains, all, any, length, points, arith, if◌then◌else◌, or_default, is_some,
}
use doomtp_bot.Prelude.Int.{ℤ}
use doomtp_bot.Runtime.Values.{Value}
use doomtp_bot.Runtime.Ops.{Number}
use doomtp_bot.Runtime.Result.{
  Outcome, raised, returned, ◌>>=◌, variable_error, e_bad_namespace, e_bad_var_name,
  e_bad_reference, e_value_too_big, e_quota,
}

pub record VarKey : Type 0 where
  pub ns : Text
  pub key1 : Text
  pub key2 : Text
  pub key3 : Text
  pub name : Text

abbrev pub key_beq : VarKey → VarKey → Bool
key_beq a b =
    list_beq nat_eq a.ns b.ns
    && list_beq nat_eq a.key1 b.key1
    && list_beq nat_eq a.key2 b.key2
    && list_beq nat_eq a.key3 b.key3
    && list_beq nat_eq a.name b.name

pub key_beq_iff : (a b : VarKey) → (key_beq a b ≡ true) ↔ (a ≡ b)
key_beq_iff a b = ground (
  arith,
  list_beq_iff nat_eq a.ns b.ns,
  list_beq_iff nat_eq a.key1 b.key1,
  list_beq_iff nat_eq a.key2 b.key2,
  list_beq_iff nat_eq a.key3 b.key3,
  list_beq_iff nat_eq a.name b.name,
)

instance abbrev pub key_eq : Comparable VarKey
key_eq = record { same = key_beq; same_iff = key_beq_iff }

-- key.label()
unfoldable pub label : VarKey → Text
label key = key.ns ++ (46 ∷ key.name)

-- A key without its name.
pub record Space : Type 0 where
  pub ns : Text
  pub key1 : Text
  pub key2 : Text
  pub key3 : Text

abbrev pub space_beq : Space → Space → Bool
space_beq a b =
    list_beq nat_eq a.ns b.ns
    && list_beq nat_eq a.key1 b.key1
    && list_beq nat_eq a.key2 b.key2
    && list_beq nat_eq a.key3 b.key3

pub space_beq_iff : (a b : Space) → (space_beq a b ≡ true) ↔ (a ≡ b)
space_beq_iff a b = ground (
  arith,
  list_beq_iff nat_eq a.ns b.ns,
  list_beq_iff nat_eq a.key1 b.key1,
  list_beq_iff nat_eq a.key2 b.key2,
  list_beq_iff nat_eq a.key3 b.key3,
)

instance abbrev pub space_eq : Comparable Space
space_eq = record { same = space_beq; same_iff = space_beq_iff }

abbrev pub space_of : VarKey → Space
space_of key = record { ns = key.ns; key1 = key.key1; key2 = key.key2; key3 = key.key3 }

-- The first segment of a namespace: key.ns.split(".", 1)[0]
unfoldable pub first_segment : Text → Text
first_segment [] = []
first_segment (c ∷ cs) = let rest = first_segment cs in if c == 46 then [] else c ∷ rest

abbrev pub Owner : Type 0
Owner = Text × Text

-- owner_of
unfoldable pub owner_of : VarKey → Owner
owner_of key = (first_segment key.ns, key.key1)

pub record Limits : Type 0 where
  pub quota_bytes : ℕ
  pub value_cap_bytes : ℕ
  pub list_items : ℕ
  pub names_per_space : ℕ

-- Limits()
abbrev pub default_limits : Limits
default_limits = record {
  quota_bytes = 1024 * 1024;
  value_cap_bytes = 256 * 1024;
  list_items = 100;
  names_per_space = 200;
}

unfoldable pub check_value_cap : ℕ → Limits → Outcome (Unit {0})
check_value_cap size limits =
    if ltb limits.value_cap_bytes size then raised (variable_error e_value_too_big) else returned tt

unfoldable pub check_quota : ℕ → Bool → Limits → Outcome (Unit {0})
check_quota used grew limits =
    if grew && ltb limits.quota_bytes used then raised (variable_error e_quota) else returned tt

-- A step of a path inside a value: a map's key, or a number.
pub data Step : Type 0 where
  named : Text → Step
  numbered : ℤ → Step

-- The kind of a write, with the value that it carries; a pop may carry a position.
pub data OpKind : Type 0 where
  set_to : Value → OpKind
  append_of : Value → OpKind
  incr_by : Number → OpKind
  delete_it : OpKind
  pop_at : Option Step → OpKind

pub record WriteOp : Type 0 where
  pub kind : OpKind
  pub key : VarKey
  pub path : List Step
