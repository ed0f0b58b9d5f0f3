-- ===== src/Policy/Snapshot.antt =====
-- policy/snapshot.py: the policy tables in memory, and the queries on them. A set is a list, a
-- dictionary an association list.
use doomtp_bot.Prelude.{
  ℕ, String, Bool, false, ◌||◌, Option, none, some, List, [], ◌∷◌, leb, ◌==◌, nat_eq, string_eq,
  pair_eq, or_else, or_default, if◌then◌else◌,
}
use doomtp_bot.Prelude.Dict
use doomtp_bot.Prelude.Dict.{Dict}
use doomtp_bot.Policy.Roles.{Role, global}

pub record ChannelSettings : Type 0 where
  pub channel_id : String
  pub login : String
  pub active : Bool
  pub status : String
  pub tier : String
  pub capabilities : List String
  pub prefix : String
  pub reply_hold_ms : ℕ
  pub log_enabled : Bool
  pub history_backfill : Bool
  pub public_log : Bool
  pub quiet_errors : Bool
  pub cc_edit_notice : Bool
  pub timezone : String
  pub automod_action : String
  pub automod_timeout_s : ℕ
  pub channel_var_write_role : String
  pub grant_min_role : String
  pub publish_min_role : String
  pub create_min_role : String
  pub var_admin_role : String

pub record Membership : Type 0 where
  pub role_id : ℕ
  pub expires_at : Option ℕ

pub record Cooldown : Type 0 where
  pub tier_s : ℕ
  pub user_s : ℕ

pub record CommandRule : Type 0 where
  pub required_role : Option String
  pub allowed_roles : Option (List String)

pub record IgnoreEntry : Type 0 where
  pub user_id : String
  pub user_login : Option String
  pub reason : Option String
  pub added_by : Option String
  pub added_at : ℕ

pub record PolicySnapshot : Type 0 where
  pub channels : Dict String ChannelSettings
  pub roles_by_id : Dict ℕ Role
  pub roles_by_scope : Dict String (Dict String Role)
  pub memberships : Dict String (List Membership)
  pub global_admins : List String
  pub module_toggles : Dict (String × String) Bool
  pub command_toggles : Dict (String × String) Bool
  pub command_rules : Dict (String × String) CommandRule
  pub cooldown_rules : Dict (String × String) (Dict String Cooldown)
  pub callbacks : Dict (String × (String × String)) String
  pub ignored : Dict String (List String)
  pub ignore_entries : Dict String (Dict String IgnoreEntry)

abbrev pub empty_snapshot : PolicySnapshot
empty_snapshot = record {
  channels = [];
  roles_by_id = [];
  roles_by_scope = [];
  memberships = [];
  global_admins = [];
  module_toggles = [];
  command_toggles = [];
  command_rules = [];
  cooldown_rules = [];
  callbacks = [];
  ignored = [];
  ignore_entries = [];
}

abbrev pub scope_roles : PolicySnapshot → String → Dict String Role
scope_roles snap scope = or_default (Dict.get scope snap.roles_by_scope) []

unfoldable pub role_named : PolicySnapshot → String → String → Option Role
role_named snap channel_id name =
    or_else (Dict.get name (scope_roles snap channel_id)) (Dict.get name (scope_roles snap global))

-- `m.expires_at is not None and m.expires_at <= now_ms`
unfoldable pub expired : ℕ → Membership → Bool
expired now_ms m = elim m.expires_at [ none ↦ false | some at ↦ leb at now_ms ]

abbrev pub add_role : String → Option Role → List Role → List Role
add_role channel_id none rest = rest
add_role channel_id (some role) rest =
    if (role.channel_id == channel_id) || (role.channel_id == global) then role ∷ rest else rest

unfoldable pub roles_of_memberships : PolicySnapshot → ℕ → String → List Membership → List Role
unfolding expired
roles_of_memberships snap now_ms channel_id [] = []
roles_of_memberships snap now_ms channel_id (m ∷ ms) =
    let rest = roles_of_memberships snap now_ms channel_id ms in
    if expired now_ms m
    then rest
    else add_role channel_id (Dict.get m.role_id snap.roles_by_id) rest

unfoldable pub custom_roles_for : PolicySnapshot → ℕ → String → String → List Role
unfolding roles_of_memberships
custom_roles_for snap now_ms channel_id user_id =
    roles_of_memberships snap now_ms channel_id (or_default (Dict.get user_id snap.memberships) [])
