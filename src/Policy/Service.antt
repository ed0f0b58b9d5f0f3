-- ===== src/Policy/Service.antt =====
-- policy/service.py: PolicyService's queries over the snapshot. Its fields are a record; the clocks
-- are arguments, in milliseconds. `mutate` and `reload` talk to the database and are not modelled.
pub mod Chatters
pub mod Ranks
pub mod Held
pub mod Ignores
pub mod Toggles
pub mod Permission
pub mod Floor
pub mod Cooldowns
pub mod Claims
pub mod Rules
pub mod Callbacks
use Prim.Native.Nat.{Ordering}
use Prim.Native.String.{compare}
use doomtp_bot.Prelude.{
  ℕ, String, Bool, true, false, Option, none, some, List, [], ◌∷◌, or_default, or_else, given,
  string_eq, map,
}
use doomtp_bot.Prelude.Dict
use doomtp_bot.Prelude.Dict.{Dict}
use doomtp_bot.Policy.Roles.{Role, builtin_ranks}
use doomtp_bot.Policy.Snapshot.{PolicySnapshot, Cooldown, role_named}
use doomtp_bot.Policy.Tracker.{CooldownTracker}

-- runtime/context.py: what the policy reads of a channel, a chatter and a run.
pub record ChannelInfo : Type 0 where
  pub id : String
  pub login : String
  pub capabilities : List String

pub record Chatter : Type 0 where
  pub id : String
  pub login : String
  pub display : String
  pub badges : List String
  pub roles : List String
  pub rank : ℕ

pub record ExecContext : Type 0 where
  pub channel : ChannelInfo
  pub invoker : Option Chatter
  pub trigger_id : Option String
  pub run_as_rank : Option ℕ

-- runtime/spec.py: what the policy reads of a command.
pub record CommandSpec : Type 0 where
  pub name : String
  pub in_module : String
  pub required_role : String
  pub min_role : Option String
  pub default_cooldowns : Dict String Cooldown
  pub requires : List String
  pub policy_key : Option String
  pub toggleable : Bool
  pub fixed_policy : Bool

-- CommandSpec.key
unfoldable pub key : CommandSpec → String
key spec = or_default (given spec.policy_key) spec.name

pub record PolicyService : Type 0 where
  pub owners : List String
  pub cooldowns : CooldownTracker
  pub snapshot : PolicySnapshot
  pub callback_sent : Dict (String × (String × (String × String))) ℕ

abbrev pub rank_of_role : Option Role → Option ℕ → Option ℕ
rank_of_role none builtin = builtin
rank_of_role (some role) builtin = some role.rank

unfoldable pub rank_of : PolicyService → String → String → Option ℕ
rank_of s channel_id role_name =
    rank_of_role (role_named s.snapshot channel_id role_name) (Dict.get role_name builtin_ranks)

unfoldable pub effective_rank : ExecContext → ℕ
effective_rank ctx = elim ctx.run_as_rank [
  | none ↦ elim ctx.invoker [ none ↦ 0 | some chatter ↦ chatter.rank ]
  | some rank ↦ rank
]

-- a <= b, on texts
unfoldable pub text_le : String → String → Bool
text_le a b = elim (compare a b) [ Ordering.gt ↦ false | _ ↦ true ]
