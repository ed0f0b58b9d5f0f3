-- ===== src/Core/Capabilities/Sets.antt =====
-- What a probe, a grant and a revocation leave of the capabilities, by membership.
use doomtp_bot.Prelude.{
  contains-append, contains-keep, String, ◌≡◌, ◌≢◌, refl, Bool, true, false, not, ◌&&◌, ◌||◌, none,
  some, List, [], ◌∷◌, ◌++◌, arith, ◌==◌, string_eq, contains, meets, keep, all, inl, inr,
  Bool-cases, eq_iff, if◌then◌else◌, beq_refl,
}
use doomtp_bot.Policy.Snapshot.{ChannelSettings}
use doomtp_bot.Core.Capabilities.{
  chat, moderate, moderator_capabilities, full_capabilities, tier_for, probe, grant, revoke_full,
  store, same_set, moderator_change, unchanged,
}

-- A probe finds chat, what the answer of Twitch proves, and what the broadcaster granted before.
pub contains-probe :
    (settings : ChannelSettings) (answer : Bool) (c : String)
    → contains c (probe (some settings) (some answer)) ≡ (
        contains c (chat ∷ [])
        || (answer && contains c moderator_capabilities)
        || (contains c settings.capabilities && contains c full_capabilities))
unfolding probe
contains-probe settings true c =
    ground (arith, contains-keep c (λ x. contains x full_capabilities) settings.capabilities)
contains-probe settings false c =
    ground (arith, contains-keep c (λ x. contains x full_capabilities) settings.capabilities)

-- A grant adds what is granted, and takes nothing away.
pub contains-grant :
    (settings : ChannelSettings) (granted : List String) (c : String)
    → contains c (grant (some settings) granted)
      ≡ (contains c settings.capabilities || contains c granted || contains c (chat ∷ []))
unfolding grant
contains-grant settings granted c = ground (
  arith,
  contains-append c settings.capabilities (granted ++ (chat ∷ [])),
  contains-append c granted (chat ∷ []),
)

-- A revocation takes exactly what only a broadcaster grants.
pub contains-revoke_full :
    (settings : ChannelSettings) (c : String)
    → contains c (revoke_full (some settings))
      ≡ (contains c settings.capabilities && not (contains c full_capabilities))
unfolding revoke_full
contains-revoke_full settings c =
    contains-keep c (λ x. not (contains x full_capabilities)) settings.capabilities

meets-append : (xs ys zs : List String) → meets xs (ys ++ zs) ≡ (meets xs ys || meets xs zs)
meets-append [] ys zs = refl
meets-append (x ∷ xs) ys zs = ground (arith, meets-append xs ys zs, contains-append x ys zs)

-- The broadcaster's grants in a probe or a grant make the tier full, and so on.
meets-keep_full :
    (fs xs : List String) (p : String → Bool) → meets fs (keep p xs) ≡ true → meets fs xs ≡ true
meets-keep_full [] xs p h = h
meets-keep_full (f ∷ fs) xs p h = ground (arith, contains-keep f p xs, meets-keep_full fs xs p, h)

disjoint : (fs xs : List String) → meets fs (keep (λ c. not (contains c fs)) xs) ≡ false
disjoint fs xs = go fs (λ c h. h)
  where
    go :
        (gs : List String)
        → ((c : String) → contains c gs ≡ true → contains c fs ≡ true)
        → meets gs (keep (λ c. not (contains c fs)) xs) ≡ false
    go [] sub = refl
    go (g ∷ gs) sub = ground (
      arith,
      contains-keep g (λ c. not (contains c fs)) xs,
      sub g (ground (arith, beq_refl g)),
      go gs (λ c h. sub c (ground (arith, h))),
    )

tier_for-not_full : (xs : List String) → meets full_capabilities xs ≡ false → tier_for xs ≢ "full"
unfolding tier_for
tier_for-not_full xs h = elim (Bool-cases (meets moderator_capabilities xs)) [
  | inl has ↦ rw (h, has) (λ e. cc e)
  | inr lacks ↦ rw (h, lacks) (λ e. cc e)
]

-- After a revocation a channel is not in the full tier, and the bot is a moderator there as before.
pub tier_for-revoke_full :
    (settings : ChannelSettings)
    → (tier_for (revoke_full (some settings)) ≢ "full")
      × (contains moderate (revoke_full (some settings)) ≡ contains moderate settings.capabilities)
tier_for-revoke_full settings = (
  tier_for-not_full (revoke_full (some settings))
      (unfold revoke_full in disjoint full_capabilities settings.capabilities),
  ground (arith, contains-revoke_full settings moderate),
)

all_within :
    (xs ys : List String)
    → ((x : String) → contains x xs ≡ true → contains x ys ≡ true)
    → all (λ x. contains x ys) xs ≡ true
all_within [] ys h = refl
all_within (x ∷ xs) ys h =
    ground
      (arith, h x (ground (arith, beq_refl x)), all_within xs ys (λ z q. h z (ground (arith, q))))

same_set_refl : (xs : List String) → same_set xs xs ≡ true
unfolding same_set
same_set_refl xs = ground (arith, all_within xs xs (λ x h. h))

-- A channel that has what `_store` wrote is not written again, and nobody is told again.
pub store_again :
    (settings : ChannelSettings) (capabilities : List String)
    → store
        (some (record settings { capabilities = capabilities; tier = tier_for capabilities }))
        capabilities
      ≡ record { written = none; told = none }
unfolding store
store_again settings capabilities =
    ground (arith, same_set_refl capabilities, beq_refl (tier_for capabilities))

within_all :
    (x : String) (xs ys : List String)
    → all (λ z. contains z ys) xs ≡ true
    → contains x xs ≡ true
    → contains x ys ≡ true
within_all x [] ys h c = absurd (ground (arith, c))
within_all x (z ∷ xs) ys h c = elim (Bool-cases (z == x)) [
  | inl same ↦ let e : z ≡ x = (eq_iff z x).0 same in ground (arith, h, e)
  | inr other ↦ within_all x xs ys (ground (arith, h)) (ground (arith, c, other))
]

same_set-contains :
    (x : String) (xs ys : List String) → same_set xs ys ≡ true → contains x xs ≡ contains x ys
unfolding same_set
same_set-contains x xs ys h =
    ground (arith, within_all x xs ys (ground (arith, h)), within_all x ys xs (ground (arith, h)))

-- Whoever waits for it is told of a channel exactly if the bot became or stopped being a moderator in it.
pub store-told :
    (settings : ChannelSettings) (capabilities : List String)
    → (store (some settings) capabilities).told ≡ (
        if contains moderate capabilities
        then (if contains moderate settings.capabilities then none else some true)
        else if contains moderate settings.capabilities
        then some false
        else none)
unfolding store moderator_change
store-told settings capabilities = elim (Bool-cases (unchanged (some settings) capabilities)) [
  | inl same ↦ rw same (
      ground (
        arith,
        same_set-contains moderate settings.capabilities capabilities (ground (arith, same)),
      ))
  | inr moved ↦ rw moved (ground arith)
]
