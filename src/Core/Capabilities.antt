-- ===== src/Core/Capabilities.antt =====
-- core/capabilities.py: what the bot may do in a channel, measured and granted. A set is a list. What
-- the prober answers is an argument, none where there is no prober; `_store` returns what it writes
-- through the policy's repository, and what it tells `on_moderator`.
pub mod Sets
mod Tests
use doomtp_bot.Prelude.{
  String, Bool, true, false, not, ◌&&◌, ◌||◌, Option, none, some, List, [], ◌∷◌, ◌++◌, ◌==◌,
  string_eq, contains, meets, keep, all, map, if◌then◌else◌,
}
use doomtp_bot.Prelude.Dict.{Dict}
use doomtp_bot.Policy.Snapshot.{ChannelSettings}

abbrev pub chat : String
chat = "chat"

abbrev pub moderate : String
moderate = "moderate"

abbrev pub moderator_capabilities : List String
moderator_capabilities = "followers" ∷ moderate ∷ []

abbrev pub full_capabilities : List String
full_capabilities = "redemptions" ∷ "subs" ∷ "bits" ∷ "broadcast" ∷ "raids" ∷ []

unfoldable pub capability_scopes : Dict String (List String)
capability_scopes =
    ("redemptions", "channel:read:redemptions" ∷ "channel:manage:redemptions" ∷ [])
    ∷ ("subs", "channel:read:subscriptions" ∷ [])
    ∷ ("bits", "bits:read" ∷ [])
    ∷ ("broadcast", "channel:manage:broadcast" ∷ [])
    ∷ ("raids", "channel:manage:raids" ∷ [])
    ∷ []

-- granted_by
unfoldable pub granted_by : List String → List String
granted_by scopes = map (λ e. e.0) (keep (λ e. meets scopes e.1) capability_scopes)

-- tier_for
unfoldable pub tier_for : List String → String
tier_for capabilities =
    if meets full_capabilities capabilities
    then "full"
    else if meets moderator_capabilities capabilities
    then "moderator"
    else "basic"

abbrev held : Option ChannelSettings → List String
held none = chat ∷ []
held (some settings) = settings.capabilities

-- `set(settings.capabilities) & FULL_CAPABILITIES`, for a channel that is known
abbrev held_full : Option ChannelSettings → List String
held_full none = []
held_full (some settings) = keep (λ c. contains c full_capabilities) settings.capabilities

abbrev measured : Option Bool → List String
measured (some true) = moderator_capabilities
measured (some false) = []
measured none = []

-- What `probe` finds and stores.
unfoldable pub probe : Option ChannelSettings → Option Bool → List String
probe settings answer = (chat ∷ []) ++ (measured answer ++ held_full settings)

-- What `grant` stores.
unfoldable pub grant : Option ChannelSettings → List String → List String
grant settings capabilities = held settings ++ (capabilities ++ (chat ∷ []))

-- What `revoke_full` stores.
unfoldable pub revoke_full : Option ChannelSettings → List String
revoke_full none = chat ∷ []
revoke_full (some settings) = keep (λ c. not (contains c full_capabilities)) settings.capabilities

-- `==` of two sets
unfoldable pub same_set : List String → List String → Bool
same_set xs ys = all (λ x. contains x ys) xs && all (λ y. contains y xs) ys

pub record Stored : Type 0 where
  pub written : Option (List String × String)
  pub told : Option Bool

abbrev pub unchanged : Option ChannelSettings → List String → Bool
unchanged none capabilities = false
unchanged (some settings) capabilities =
    same_set settings.capabilities capabilities && (settings.tier == tier_for capabilities)

-- `was_mod != (MODERATE in capabilities)`, for a channel that is known
unfoldable pub moderator_change : Option ChannelSettings → List String → Option Bool
moderator_change none capabilities = none
moderator_change (some settings) capabilities = elim (contains moderate settings.capabilities) [
  | true ↦ if contains moderate capabilities then none else some false
  | false ↦ if contains moderate capabilities then some true else none
]

-- _store
unfoldable pub store : Option ChannelSettings → List String → Stored
store settings capabilities =
    if unchanged settings capabilities then record { written = none; told = none } else record {
      written = some (capabilities, tier_for capabilities);
      told = moderator_change settings capabilities;
    }
