-- ===== src/Policy/Tracker.antt =====
-- policy/cooldowns.py: the cooldown buckets. The monotonic clock is read in whole milliseconds, and
-- `math.ceil` of a time in seconds rounds these up. A subtraction that Python clips by `max(0, …)`
-- is the one that stops at 0.
pub mod Commit
use doomtp_bot.Prelude.{
  ℕ, zero, ◌+◌, ◌-◌, ◌*◌, ◌/◌, ◌≤◌, ◌<◌, String, ◌≡◌, ◌≢◌, refl, Bool, true, false, not, ◌&&◌,
  Option, none, some, List, [], ◌∷◌, arith, leb, ltb, eqb, ◌==◌, string_eq, pair_eq, given,
  or_default, length, keep, if◌then◌else◌,
}
use doomtp_bot.Prelude.Dict
use doomtp_bot.Prelude.Dict.{Dict, get-put}
use doomtp_bot.Policy.Snapshot.{Cooldown}

abbrev pub Key : Type 0
Key = String × (String × String)

pub record CooldownTracker : Type 0 where
  pub tier : Dict Key ℕ
  pub user : Dict Key ℕ

pub record CooldownState : Type 0 where
  pub tier : String
  pub tier_remaining : ℕ
  pub user_remaining : ℕ

unfoldable pub ready : CooldownState → Bool
ready s = eqb s.tier_remaining 0 && eqb s.user_remaining 0

-- max(0, math.ceil(until - now))
unfoldable pub remaining : ℕ → ℕ → ℕ
remaining until now = (until - now + 999) / 1000

-- `if user_id` reads an empty id as none, by `given` at each use.
abbrev pub until_of : Dict Key ℕ → String → String → Option String → ℕ
until_of d channel_id command none = 0
until_of d channel_id command (some u) = or_default (Dict.get (channel_id, (command, u)) d) 0

unfoldable pub user_until : CooldownTracker → String → String → Option String → ℕ
user_until t channel_id command user_id = until_of t.user channel_id command (given user_id)

unfoldable pub tier_until : CooldownTracker → String → String → String → ℕ
tier_until t channel_id command tier = or_default (Dict.get (channel_id, (command, tier)) t.tier) 0

unfoldable pub state :
    CooldownTracker → ℕ → String → String → String → Option String → CooldownState
state t now channel_id command tier user_id = record {
  tier = tier;
  tier_remaining = remaining (tier_until t channel_id command tier) now;
  user_remaining = remaining (user_until t channel_id command user_id) now;
}

abbrev pub running : ℕ → Dict Key ℕ → Dict Key ℕ
running now = keep (λ e. ltb now e.1)

unfoldable pub prune : CooldownTracker → ℕ → CooldownTracker
prune t now = record { tier = running now t.tier; user = running now t.user }

unfoldable pub start_tier : CooldownTracker → ℕ → String → String → String → Cooldown → Dict Key ℕ
start_tier t now channel_id command tier rule =
    if ltb 0 rule.tier_s
    then Dict.put (channel_id, (command, tier)) (now + rule.tier_s * 1000) t.tier
    else t.tier

unfoldable pub start_named :
    Dict Key ℕ → ℕ → String → String → Option String → Cooldown → Dict Key ℕ
start_named d now channel_id command none rule = d
start_named d now channel_id command (some u) rule =
    if ltb 0 rule.user_s
    then Dict.put (channel_id, (command, u)) (now + rule.user_s * 1000) d
    else d

unfoldable pub start_user :
    CooldownTracker → ℕ → String → String → Option String → Cooldown → Dict Key ℕ
unfolding start_named
start_user t now channel_id command user_id rule =
    start_named t.user now channel_id command (given user_id) rule

abbrev pub prune_at : ℕ
prune_at = 50000

unfoldable pub commit :
    CooldownTracker → ℕ → String → String → String → Option String → Cooldown → CooldownTracker
commit t now channel_id command tier user_id rule =
    let t' : CooldownTracker = record {
      tier = start_tier t now channel_id command tier rule;
      user = start_user t now channel_id command user_id rule;
    } in
    if ltb prune_at (length t'.tier + length t'.user) then prune t' now else t'
