-- ===== src/Policy/Service/Claims.antt =====
-- What a claim of a cooldown guarantees to the runs that come after it.
use doomtp_bot.Prelude.{
  ℕ, ◌+◌, ◌*◌, ◌≤◌, ◌<◌, ◌≡◌, refl, inl, inr, true, false, Option, none, some, arith, ltb, lt→ltb,
  string_eq, pair_eq, beq_refl, Option-cases,
}
use doomtp_bot.Policy.Tracker.{Key, ready, remaining}
use doomtp_bot.Policy.Tracker.Commit.{IsValid, commit-IsValid, same_key, tier_remaining-commit}
use doomtp_bot.Policy.Service.{PolicyService, CommandSpec, ExecContext}
use doomtp_bot.Policy.Service.Permission.{Decision, code_cooldown}
use doomtp_bot.Policy.Service.Cooldowns.{
  Bucket, bucket, bucket_state, waiting, check_cooldown, claim_cooldown, start_bucket, settle,
}

waiting-refusal :
    (s : PolicyService) (now : ℕ) (spec : CommandSpec) (b : Option Bucket) (d : Decision)
    → waiting s now spec b ≡ some d
    → (d.allowed ≡ false) × (d.code ≡ code_cooldown)
unfolding waiting
waiting-refusal s now spec none d h = cc
waiting-refusal s now spec (some b) d h = ground arith

-- A claim answers what a look would, and a refused claim starts no bucket.
pub claim_cooldown-check :
    (s : PolicyService) (now : ℕ) (ctx : ExecContext) (spec : CommandSpec)
    → ((claim_cooldown s now ctx spec).1 ≡ check_cooldown s now ctx spec)
      × ((claim_cooldown s now ctx spec).1.allowed ≡ false
          → ((claim_cooldown s now ctx spec).0 ≡ s)
            × ((claim_cooldown s now ctx spec).1.code ≡ code_cooldown))
unfolding claim_cooldown check_cooldown
claim_cooldown-check s now ctx spec = elim (Option-cases (waiting s now spec (bucket s ctx spec))) [
  | inl clear ↦ rw clear (refl, (λ h. cc))
  | inr (d, refused) ↦
      rw refused (refl, (λ h. (refl, (waiting-refusal s now spec (bucket s ctx spec) d refused).1)))
]

start_bucket-IsValid :
    (s : PolicyService) (now : ℕ) (b : Option Bucket)
    → IsValid s.cooldowns
    → IsValid (start_bucket s now b).cooldowns
start_bucket-IsValid s now none v = v
start_bucket-IsValid s now (some b) v =
    commit-IsValid s.cooldowns now b.channel_id b.key b.tier b.user_id b.rule v

settle-IsValid :
    (s : PolicyService) (now : ℕ) (b : Option Bucket) (refused : Option Decision)
    → IsValid s.cooldowns
    → IsValid (settle s now b refused).0.cooldowns
settle-IsValid s now b none v = start_bucket-IsValid s now b v
settle-IsValid s now b (some d) v = v

-- A claim keeps the tracker's dictionaries well formed.
pub claim_cooldown-IsValid :
    (s : PolicyService) (now : ℕ) (ctx : ExecContext) (spec : CommandSpec)
    → IsValid s.cooldowns
    → IsValid (claim_cooldown s now ctx spec).0.cooldowns
unfolding claim_cooldown
claim_cooldown-IsValid s now ctx spec v =
    settle-IsValid s now (bucket s ctx spec) (waiting s now spec (bucket s ctx spec)) v

claimed :
    (s : PolicyService) (now : ℕ) (ctx : ExecContext) (spec : CommandSpec) (b : Bucket)
    → bucket s ctx spec ≡ some b
    → (claim_cooldown s now ctx spec).1.allowed ≡ true
    → (claim_cooldown s now ctx spec).0 ≡ start_bucket s now (some b)
unfolding claim_cooldown waiting
claimed s now ctx spec b e h = ground (arith, e, h)

-- A bucket that still shows a tier time refuses every claim on it.
claim-refused :
    (s : PolicyService) (now : ℕ) (ctx : ExecContext) (spec : CommandSpec) (b : Bucket)
    → bucket s ctx spec ≡ some b
    → 0 < (bucket_state s now b).tier_remaining
    → ((claim_cooldown s now ctx spec).0 ≡ s) × ((claim_cooldown s now ctx spec).1.allowed ≡ false)
unfolding claim_cooldown waiting ready
claim-refused s now ctx spec b e h = ground (arith, e)

remaining_positive : (until now : ℕ) → now < until → 0 < remaining until now
unfolding remaining
remaining_positive until now h = omega arith

remaining_over : (until now : ℕ) → until ≤ now → remaining until now ≡ 0
unfolding remaining
remaining_over until now h = omega arith

-- Two runs never share a tier bucket: once a claim on it was allowed, every claim on the same bucket,
-- by whomever, is refused and starts nothing until the rule's whole time is over.
pub claim_cooldown-excludes :
    (s : PolicyService) (now later : ℕ) (ctx ctx' : ExecContext) (spec spec' : CommandSpec)
    (b b' : Bucket)
    → IsValid s.cooldowns
    → bucket s ctx spec ≡ some b
    → (claim_cooldown s now ctx spec).1.allowed ≡ true
    → bucket (claim_cooldown s now ctx spec).0 ctx' spec' ≡ some b'
    → (b'.channel_id ≡ b.channel_id) × (b'.key ≡ b.key) × (b'.tier ≡ b.tier)
    → now ≤ later
    → later < now + b.rule.tier_s * 1000
    → ((claim_cooldown (claim_cooldown s now ctx spec).0 later ctx' spec').0
        ≡ (claim_cooldown s now ctx spec).0)
      × ((claim_cooldown (claim_cooldown s now ctx spec).0 later ctx' spec').1.allowed ≡ false)
claim_cooldown-excludes s now later ctx ctx' spec spec' b b' v e h e' (c, k, t) le lt =
    claim-refused (claim_cooldown s now ctx spec).0 later ctx' spec' b' e' shown
  where
    long : ltb 0 b.rule.tier_s ≡ true
    long = lt→ltb 0 b.rule.tier_s (omega arith)

    same : same_key (b.channel_id, (b.key, b.tier)) (b'.channel_id, (b'.key, b'.tier)) ≡ true
    same = rw (c, k, t) (beq_refl {K = Key} (b.channel_id, (b.key, b.tier)))

    shown : 0 < (bucket_state (claim_cooldown s now ctx spec).0 later b').tier_remaining
    shown =
        rw
          (
            claimed s now ctx spec b e h,
            tier_remaining-commit s.cooldowns now later b.channel_id b.key b.tier b.user_id b.rule
                b'.channel_id b'.key b'.tier b'.user_id v le,
            long,
            same,
          )
          (remaining_positive (now + b.rule.tier_s * 1000) later lt)
