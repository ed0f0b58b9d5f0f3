-- ===== src/Policy/Service/Rules.antt =====
-- Which cooldown rule a run gets.
use doomtp_bot.Prelude.{
  ℕ, ◌≤◌, String, ◌≡◌, refl, true, false, Option, none, some, List, [], ◌∷◌, arith, leb, string_eq,
  sort, find, find-All, find-none, find-sort, All, All-sort, All-of_sort,
}
use doomtp_bot.Prelude.Dict.{Dict}
use doomtp_bot.Policy.Snapshot.{Cooldown}
use doomtp_bot.Policy.Service.{PolicyService, CommandSpec, ExecContext, rank_of, effective_rank}
use doomtp_bot.Policy.Service.Cooldowns.{
  Candidate, candidates, add_candidate, applicable, before, cooldown_rule,
}

before-higher : (a b : Candidate) → before a b ≡ true → b.rank ≤ a.rank
unfolding before
before-higher a b h = ground arith

before-lower : (a b : Candidate) → before a b ≡ false → a.rank ≤ b.rank
unfolding before
before-lower a b h = ground arith

-- The rank of a candidate is the rank of its role in the channel.
abbrev pub IsRanked : PolicyService → String → Candidate → Type 0
IsRanked s c x = rank_of s c x.name ≡ some x.rank

add_candidate-IsRanked :
    (s : PolicyService) (c name : String) (rule : Cooldown) (r : Option ℕ) (rest : List Candidate)
    → rank_of s c name ≡ r
    → All (IsRanked s c) rest
    → All (IsRanked s c) (add_candidate r name rule rest)
add_candidate-IsRanked s c name rule none rest e all = all
add_candidate-IsRanked s c name rule (some r) rest e all = (e, all)

candidates-IsRanked :
    (s : PolicyService) (c : String) (rules : Dict String Cooldown)
    → All (IsRanked s c) (candidates s c rules)
unfolding candidates
candidates-IsRanked s c [] = tt
candidates-IsRanked s c ((name, rule) ∷ rules) =
    add_candidate-IsRanked s c name rule (rank_of s c name) _ refl (candidates-IsRanked s c rules)

-- The rule that a run gets belongs to a role that the run's rank reaches, at that role's rank in the
-- channel, and no applicable rule that the rank reaches belongs to a higher role.
pub cooldown_rule-highest :
    (s : PolicyService) (ctx : ExecContext) (spec : CommandSpec) (found : Candidate)
    → cooldown_rule s ctx spec ≡ some found
    → (found.rank ≤ effective_rank ctx)
      × (rank_of s ctx.channel.id found.name ≡ some found.rank)
      × All
          (λ c. c.rank ≤ effective_rank ctx → c.rank ≤ found.rank)
          (applicable s ctx.channel.id spec)
unfolding cooldown_rule
cooldown_rule-highest s ctx spec found h =
    let here = applicable s ctx.channel.id spec in
    let n = effective_rank ctx in
    let h' : find (λ c. leb c.rank n) (sort before here) ≡ some found = ground arith in
    let ranked =
      All-sort (IsRanked s ctx.channel.id) before here
        (unfold applicable in candidates-IsRanked s _ _) in
    let (is_ranked, reached) =
      find-All (IsRanked s ctx.channel.id) (λ c. leb c.rank n) (sort before here) found ranked h' in
    (
      ground (arith, reached),
      is_ranked,
      find-sort (λ c. c.rank) before before-higher before-lower n here found h',
    )

-- A run of a command with cooldowns that gets no rule reaches the role of none.
pub cooldown_rule-none :
    (s : PolicyService) (ctx : ExecContext) (spec : CommandSpec)
    → spec.fixed_policy ≡ false
    → cooldown_rule s ctx spec ≡ none
    → All (λ c. leb c.rank (effective_rank ctx) ≡ false) (applicable s ctx.channel.id spec)
unfolding cooldown_rule
cooldown_rule-none s ctx spec free h =
    let here = applicable s ctx.channel.id spec in
    let n = effective_rank ctx in
    All-of_sort (λ c. leb c.rank n ≡ false) before here
      (find-none (λ c. leb c.rank n) (sort before here) (ground (arith, free)))
