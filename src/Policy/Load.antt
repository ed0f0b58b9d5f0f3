-- ===== src/Policy/Load.antt =====
-- policy/snapshot.py: `load_snapshot`, from the rows that each SELECT gives. Reading the rows is the
-- database's part; `loads` is `json.loads`, for the columns that hold a list of texts.
use doomtp_bot.Prelude.{
  ℕ, String, Bool, Option, none, some, List, [], ◌∷◌, ◌++◌, given, or_default, string_eq, nat_eq,
  pair_eq, map,
}
use doomtp_bot.Prelude.Dict
use doomtp_bot.Prelude.Dict.{Dict}
use doomtp_bot.Policy.Roles.{Role}
use doomtp_bot.Policy.Snapshot.{
  PolicySnapshot, ChannelSettings, Membership, Cooldown, CommandRule, IgnoreEntry,
}

-- A row of `channels`: the settings, with the capabilities as JSON.
pub record ChannelRow : Type 0 where
  pub settings : ChannelSettings
  pub capabilities : Option String

pub record MemberRow : Type 0 where
  pub role_id : ℕ
  pub user_id : String
  pub expires_at : Option ℕ

pub record ModuleToggleRow : Type 0 where
  pub channel_id : String
  pub in_module : String
  pub enabled : Bool

pub record CommandToggleRow : Type 0 where
  pub channel_id : String
  pub command : String
  pub enabled : Option Bool

pub record CommandRuleRow : Type 0 where
  pub channel_id : String
  pub command : String
  pub required_role : Option String
  pub allowed_roles : Option String

pub record CooldownRow : Type 0 where
  pub channel_id : String
  pub command : String
  pub role : String
  pub tier_s : ℕ
  pub user_s : ℕ

pub record CallbackRow : Type 0 where
  pub channel_id : String
  pub scope : String
  pub kind : String
  pub expr : String

pub record IgnoreRow : Type 0 where
  pub channel_id : String
  pub entry : IgnoreEntry

pub record Tables : Type 0 where
  pub channels : List ChannelRow
  pub roles : List Role
  pub role_members : List MemberRow
  pub global_admins : List String
  pub module_toggles : List ModuleToggleRow
  pub command_toggles : List CommandToggleRow
  pub command_rules : List CommandRuleRow
  pub cooldown_rules : List CooldownRow
  pub callbacks : List CallbackRow
  pub ignore_list : List IgnoreRow

-- for r in rows: d = step(d, r)
abbrev pub each {ℓ κ} : {R : Type ℓ} {D : Type κ} → (D → R → D) → D → List R → D
each step d [] = d
each step d (r ∷ rows) = each step (step d r) rows

-- d.setdefault(outer, {})[inner] = v
abbrev pub put_in {ℓ} :
    {V : Type ℓ} → String → String → V → Dict String (Dict String V) → Dict String (Dict String V)
put_in outer inner v d = Dict.put outer (Dict.put inner v (or_default (Dict.get outer d) [])) d

module _ (loads : String → List String) where
  unfoldable pub add_channel :
      Dict String ChannelSettings → ChannelRow → Dict String ChannelSettings
  add_channel d r =
      Dict.put r.settings.channel_id
        (record (r.settings) { capabilities = loads (or_default (given r.capabilities) "[]") }) d

  -- `tuple(json.loads(…)) if r["allowed_roles"] else None`
  abbrev pub allowed_of : Option String → Option (List String)
  allowed_of none = none
  allowed_of (some text) = some (loads text)

  unfoldable pub add_rule :
      Dict (String × String) CommandRule → CommandRuleRow → Dict (String × String) CommandRule
  add_rule d r =
      Dict.put (r.channel_id, r.command)
        (record {
          required_role = r.required_role;
          allowed_roles = allowed_of (given r.allowed_roles);
        })
        d

unfoldable pub add_membership :
    Dict String (List Membership) → MemberRow → Dict String (List Membership)
add_membership d r =
    Dict.put r.user_id
      (or_default (Dict.get r.user_id d) []
        ++ record { role_id = r.role_id; expires_at = r.expires_at } ∷ [])
      d

abbrev pub add_module_toggle :
    Dict (String × String) Bool → ModuleToggleRow → Dict (String × String) Bool
add_module_toggle d r = Dict.put (r.channel_id, r.in_module) r.enabled d

-- `if r["enabled"] is not None`
abbrev pub put_some :
    String × String → Option Bool → Dict (String × String) Bool → Dict (String × String) Bool
put_some k none d = d
put_some k (some b) d = Dict.put k b d

abbrev pub add_command_toggle :
    Dict (String × String) Bool → CommandToggleRow → Dict (String × String) Bool
add_command_toggle d r = put_some (r.channel_id, r.command) r.enabled d

abbrev pub add_cooldown :
    Dict (String × String) (Dict String Cooldown)
    → CooldownRow
    → Dict (String × String) (Dict String Cooldown)
add_cooldown d r =
    let k : String × String = (r.channel_id, r.command) in
    Dict.put k
      (Dict.put r.role (record { tier_s = r.tier_s; user_s = r.user_s })
        (or_default (Dict.get k d) []))
      d

abbrev pub add_callback :
    Dict (String × (String × String)) String
    → CallbackRow
    → Dict (String × (String × String)) String
add_callback d r = Dict.put (r.channel_id, (r.scope, r.kind)) r.expr d

unfoldable pub add_ignore :
    Dict String (Dict String IgnoreEntry) → IgnoreRow → Dict String (Dict String IgnoreEntry)
add_ignore d r = put_in r.channel_id r.entry.user_id r.entry d

-- {k: frozenset(v) for k, v in ignore_entries.items()}
unfoldable pub ignored_ids : Dict String (Dict String IgnoreEntry) → Dict String (List String)
ignored_ids d = map (λ e. (e.0, map (λ x. x.0) e.1)) d

unfoldable pub load_snapshot : (String → List String) → Tables → PolicySnapshot
unfolding add_channel add_rule add_membership add_ignore ignored_ids
load_snapshot loads t =
    let entries = each add_ignore [] t.ignore_list in
    record {
      channels = each (add_channel loads) [] t.channels;
      roles_by_id = each (λ d role. Dict.put role.id role d) [] t.roles;
      roles_by_scope = each (λ d role. put_in role.channel_id role.name role d) [] t.roles;
      memberships = each add_membership [] t.role_members;
      global_admins = t.global_admins;
      module_toggles = each add_module_toggle [] t.module_toggles;
      command_toggles = each add_command_toggle [] t.command_toggles;
      command_rules = each (add_rule loads) [] t.command_rules;
      cooldown_rules = each add_cooldown [] t.cooldown_rules;
      callbacks = each add_callback [] t.callbacks;
      ignored = ignored_ids entries;
      ignore_entries = entries;
    }
