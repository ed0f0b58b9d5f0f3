-- ===== src/Policy/Tracker/Commit.antt =====
-- What a commit does to every bucket, the pruning of a large tracker included.
use doomtp_bot.Prelude.{
  ℕ, ◌+◌, ◌*◌, ◌≤◌, String, ◌≡◌, sym, ◌∙◌, inl, inr, Bool, ◌&&◌, Option, none, some, arith, ltb,
  ◌==◌, string_eq, pair_eq, given, or_default, length, if◌then◌else◌, Bool-cases, Option-cases,
}
use doomtp_bot.Prelude.Dict
use doomtp_bot.Prelude.Dict.{Dict, get-put}
use doomtp_bot.Prelude.Dict.Distinct.{Distinct, Distinct-put, Distinct-keep, get-keep}
use doomtp_bot.Policy.Snapshot.{Cooldown}
use doomtp_bot.Policy.Tracker.{
  Key, CooldownTracker, state, commit, prune, running, remaining, tier_until, user_until,
  start_tier, start_user, start_named, prune_at,
}

-- Each dictionary holds a key once.
pub record IsValid (t : CooldownTracker) : Type 0 where
  pub tiers : Distinct t.tier
  pub users : Distinct t.user

start_tier-Distinct :
    (t : CooldownTracker) (now : ℕ) (c k tier : String) (rule : Cooldown)
    → Distinct t.tier
    → Distinct (start_tier t now c k tier rule)
unfolding start_tier
start_tier-Distinct t now c k tier rule u = elim (Bool-cases (ltb 0 rule.tier_s)) [
  | inl long ↦ rw long (Distinct-put (c, (k, tier)) _ t.tier u)
  | inr short ↦ rw short u
]

start_named-Distinct :
    (d : Dict Key ℕ) (now : ℕ) (c k : String) (user : Option String) (rule : Cooldown)
    → Distinct d
    → Distinct (start_named d now c k user rule)
unfolding start_named
start_named-Distinct d now c k none rule u = u
start_named-Distinct d now c k (some name) rule u = elim (Bool-cases (ltb 0 rule.user_s)) [
  | inl long ↦ rw long (Distinct-put (c, (k, name)) _ d u)
  | inr short ↦ rw short u
]

start_user-Distinct :
    (t : CooldownTracker) (now : ℕ) (c k : String) (user : Option String) (rule : Cooldown)
    → Distinct t.user
    → Distinct (start_user t now c k user rule)
unfolding start_user
start_user-Distinct t now c k user rule u = start_named-Distinct t.user now c k (given user) rule u

-- A commit keeps each key once, pruned or not.
pub commit-IsValid :
    (t : CooldownTracker) (now : ℕ) (c k tier : String) (user : Option String) (rule : Cooldown)
    → IsValid t
    → IsValid (commit t now c k tier user rule)
unfolding commit prune
commit-IsValid t now c k tier user rule v =
    let tiers = start_tier-Distinct t now c k tier rule v.tiers in
    let users = start_user-Distinct t now c k user rule v.users in
    elim (Bool-cases (
      ltb prune_at
        (length (start_tier t now c k tier rule) + length (start_user t now c k user rule)))) [
          | inl large ↦ rw large (record {
            tiers = Distinct-keep (λ x. ltb now x) _ tiers;
            users = Distinct-keep (λ x. ltb now x) _ users;
          })
          | inr small ↦ rw small (record { tiers = tiers; users = users })
        ]

remaining-past : (until now : ℕ) → until ≤ now → remaining until now ≡ 0
unfolding remaining
remaining-past until now h = omega arith

-- What a pruning at `now` drops had run out by then.
remaining-running :
    (now later : ℕ) (key : Key) (d : Dict Key ℕ)
    → Distinct d
    → now ≤ later
    → remaining (or_default (Dict.get key (running now d)) 0) later
      ≡ remaining (or_default (Dict.get key d) 0) later
remaining-running now later key d u h = elim (Option-cases (Dict.get key d)) [
  | inl absent ↦ rw (get-keep (λ v. ltb now v) key d u, absent)
  | inr (until, found) ↦
      rw (get-keep (λ v. ltb now v) key d u, found)
        (elim (Bool-cases (ltb now until)) [
          | inl live ↦ rw live
          | inr over ↦
              let past : until ≤ later = ground (arith, over) in
              rw over (remaining-past 0 later (omega arith) ∙ sym (remaining-past until later past))
        ])
]

abbrev pub same_key : Key → Key → Bool
same_key a b = a == b

remaining-start_tier :
    (t : CooldownTracker) (now later : ℕ) (c k tier : String) (rule : Cooldown) (key : Key)
    → remaining (or_default (Dict.get key (start_tier t now c k tier rule)) 0) later ≡ (
        if ltb 0 rule.tier_s && same_key (c, (k, tier)) key
        then remaining (now + rule.tier_s * 1000) later
        else remaining (or_default (Dict.get key t.tier) 0) later)
unfolding start_tier
remaining-start_tier t now later c k tier rule key = elim (Bool-cases (ltb 0 rule.tier_s)) [
  | inl long ↦
      rw (long, get-put (c, (k, tier)) key (now + rule.tier_s * 1000) t.tier)
        (elim (Bool-cases (same_key (c, (k, tier)) key)) [
          | inl same ↦ rw same
          | inr other ↦ rw other
        ])
  | inr short ↦ rw short
]

remaining-start_user :
    (t : CooldownTracker) (now later : ℕ) (c k u : String) (user : Option String) (rule : Cooldown)
    (key : Key)
    → given user ≡ some u
    → remaining (or_default (Dict.get key (start_user t now c k user rule)) 0) later ≡ (
        if ltb 0 rule.user_s && same_key (c, (k, u)) key
        then remaining (now + rule.user_s * 1000) later
        else remaining (or_default (Dict.get key t.user) 0) later)
unfolding start_user
remaining-start_user t now later c k u user rule key known =
    rw known (elim (Bool-cases (ltb 0 rule.user_s)) [
      | inl long ↦
          rw (long, get-put (c, (k, u)) key (now + rule.user_s * 1000) t.user)
            (elim (Bool-cases (same_key (c, (k, u)) key)) [
              | inl same ↦ rw same
              | inr other ↦ rw other
            ])
      | inr short ↦ rw short
    ])

-- The dictionaries of a commit, as a later look at a key sees them: pruned or not, they are the same.
remaining-commit_tier :
    (t : CooldownTracker) (now later : ℕ) (c k tier : String) (user : Option String)
    (rule : Cooldown) (key : Key)
    → IsValid t
    → now ≤ later
    → remaining (or_default (Dict.get key (commit t now c k tier user rule).tier) 0) later
      ≡ remaining (or_default (Dict.get key (start_tier t now c k tier rule)) 0) later
unfolding commit prune
remaining-commit_tier t now later c k tier user rule key v h =
    elim (Bool-cases (
      ltb prune_at
        (length (start_tier t now c k tier rule) + length (start_user t now c k user rule)))) [
          | inl large ↦ rw large (
              remaining-running now later key _ (start_tier-Distinct t now c k tier rule v.tiers) h)
          | inr small ↦ rw small
        ]

remaining-commit_user :
    (t : CooldownTracker) (now later : ℕ) (c k tier : String) (user : Option String)
    (rule : Cooldown) (key : Key)
    → IsValid t
    → now ≤ later
    → remaining (or_default (Dict.get key (commit t now c k tier user rule).user) 0) later
      ≡ remaining (or_default (Dict.get key (start_user t now c k user rule)) 0) later
unfolding commit prune
remaining-commit_user t now later c k tier user rule key v h =
    elim (Bool-cases (
      ltb prune_at
        (length (start_tier t now c k tier rule) + length (start_user t now c k user rule)))) [
          | inl large ↦ rw large (
              remaining-running now later key _ (start_user-Distinct t now c k user rule v.users) h)
          | inr small ↦ rw small
        ]

-- After a commit a tier bucket shows the rule's whole time if it is the committed one and the rule has
-- a tier time, and what it showed before if not, also where the commit pruned the tracker.
pub tier_remaining-commit :
    (t : CooldownTracker) (now later : ℕ) (c k tier : String) (user : Option String)
    (rule : Cooldown) (c' k' tier' : String) (user' : Option String)
    → IsValid t
    → now ≤ later
    → (state (commit t now c k tier user rule) later c' k' tier' user').tier_remaining ≡ (
        if ltb 0 rule.tier_s && same_key (c, (k, tier)) (c', (k', tier'))
        then remaining (now + rule.tier_s * 1000) later
        else (state t later c' k' tier' user').tier_remaining)
unfolding state tier_until
tier_remaining-commit t now later c k tier user rule c' k' tier' user' v h =
    remaining-commit_tier t now later c k tier user rule (c', (k', tier')) v h
    ∙ remaining-start_tier t now later c k tier rule (c', (k', tier'))

-- The same for the personal bucket of a chatter, of a commit for a known chatter.
pub user_remaining-commit :
    (t : CooldownTracker) (now later : ℕ) (c k tier u : String) (user : Option String)
    (rule : Cooldown) (c' k' tier' u' : String) (user' : Option String)
    → IsValid t
    → now ≤ later
    → given user ≡ some u
    → given user' ≡ some u'
    → (state (commit t now c k tier user rule) later c' k' tier' user').user_remaining ≡ (
        if ltb 0 rule.user_s && same_key (c, (k, u)) (c', (k', u'))
        then remaining (now + rule.user_s * 1000) later
        else (state t later c' k' tier' user').user_remaining)
unfolding state user_until
user_remaining-commit t now later c k tier u user rule c' k' tier' u' user' v h known known' =
    rw known' (
      remaining-commit_user t now later c k tier user rule (c', (k', u')) v h
      ∙ remaining-start_user t now later c k u user rule (c', (k', u')) known)
