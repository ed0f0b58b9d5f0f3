-- ===== src/Core/Capabilities/Tests.antt =====
-- A channel, and the theorems on its capabilities.
use doomtp_bot.Prelude.{◌≡◌, ◌≢◌, refl, true, none, some, [], ◌∷◌, string_eq, contains}
use doomtp_bot.Core.Samples.{joined_channel}
use doomtp_bot.Core.Capabilities.{
  moderate, tier_for, grant, revoke_full, store, granted_by, capability_scopes,
}
use doomtp_bot.Core.Capabilities.Sets

granted_some : granted_by ("bits:read" ∷ "channel:manage:raids" ∷ []) ≡ "bits" ∷ "raids" ∷ []
unfolding granted_by capability_scopes
granted_some = refl

contains-grant_example : contains "subs" (grant (some joined_channel) ("subs" ∷ [])) ≡ true
contains-grant_example = Sets.contains-grant joined_channel ("subs" ∷ []) "subs"

tier_for-revoke_full_example :
    (tier_for (revoke_full (some joined_channel)) ≢ "full")
    × (contains moderate (revoke_full (some joined_channel))
        ≡ contains moderate joined_channel.capabilities)
tier_for-revoke_full_example = Sets.tier_for-revoke_full joined_channel

store_again_example :
    store
      (some (record joined_channel { capabilities = "chat" ∷ []; tier = tier_for ("chat" ∷ []) }))
      ("chat" ∷ [])
    ≡ record { written = none; told = none }
store_again_example = Sets.store_again joined_channel ("chat" ∷ [])
