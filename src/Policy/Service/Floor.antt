-- ===== src/Policy/Service/Floor.antt =====
-- What the permission check guarantees: a pack's floor (ADR-0033), monotonicity in the rank, and the
-- preflight gate as a whole.
use doomtp_bot.Prelude.{
  ℕ, ◌≤◌, String, ◌≡◌, refl, sym, ◌∙◌, ◌⊎◌, inl, inr, Bool, true, false, not, Option, none, some,
  List, [], ◌∷◌, arith, string_eq, contains, meets, keep, if◌then◌else◌, Bool-cases, Option-cases,
}
use doomtp_bot.Policy.Service.{
  PolicyService, CommandSpec, Chatter, ExecContext, rank_of, effective_rank,
}
use doomtp_bot.Policy.Service.Toggles.{is_enabled}
use doomtp_bot.Policy.Service.Permission.{
  Decision, check, gate, gate_available, is_permitted, permission, required_role, below_floor,
  floored, holds_allowed, reaches, rule_of, rule_required, rule_allowed, not_empty, missing, allow,
  code_denied, code_unknown,
}

meets-keep :
    (p : String → Bool) (xs ys : List String)
    → meets (keep p xs) ys ≡ true
    → (x : String) × (p x ≡ true) × (contains x ys ≡ true)
meets-keep p [] ys h = cc
meets-keep p (x ∷ xs) ys h = elim (Bool-cases (p x)) [
  | inr out ↦ meets-keep p xs ys (rw (out, keep) at h)
  | inl kept ↦ elim (Bool-cases (contains x ys)) [
    | inl held ↦ (x, kept, held)
    | inr absent ↦ meets-keep p xs ys (ground (arith, kept, absent))
  ]
]

-- The invoker holds a role whose rank reaches `floor`.
abbrev pub HoldsRank : PolicyService → ExecContext → ℕ → Type 0
HoldsRank s ctx floor =
    (chatter : Chatter) × (role : String) × (r : ℕ) × (ctx.invoker ≡ some chatter)
    × (contains role chatter.roles ≡ true)
    × (rank_of s ctx.channel.id role ≡ some r)
    × (floor ≤ r)

above_floor :
    (s : PolicyService) (c m : String) (f : ℕ) (spec : CommandSpec) (role : String)
    → spec.min_role ≡ some m
    → rank_of s c m ≡ some f
    → below_floor s c spec role ≡ false
    → (r : ℕ) × (rank_of s c role ≡ some r) × (f ≤ r)
unfolding below_floor
above_floor s c m f spec role e g h = elim (Option-cases (rank_of s c role)) [
  | inl unknown ↦ absurd (ground arith)
  | inr (r, known) ↦ (r, known, ground arith)
]

holds_allowed-nobody : (allowed : Option (List String)) → holds_allowed allowed none ≡ false
unfolding holds_allowed
holds_allowed-nobody none = refl
holds_allowed-nobody (some xs) = refl

holds_allowed-not_empty :
    (xs : List String) (chatter : Chatter)
    → holds_allowed (not_empty xs) (some chatter) ≡ meets xs chatter.roles
unfolding holds_allowed
holds_allowed-not_empty [] chatter = refl
holds_allowed-not_empty (x ∷ xs) chatter = refl

holds_allowed-floored :
    (s : PolicyService) (c : String) (spec : CommandSpec) (allowed : Option (List String))
    (chatter : Chatter)
    → holds_allowed (floored s c spec allowed) (some chatter) ≡ true
    → (x : String) × (not (below_floor s c spec x) ≡ true) × (contains x chatter.roles ≡ true)
unfolding floored
holds_allowed-floored s c spec none chatter h = unfold holds_allowed in cc
holds_allowed-floored s c spec (some []) chatter h = unfold holds_allowed in cc
holds_allowed-floored s c spec (some (r ∷ rs)) chatter h =
    let p : String → Bool = λ x. not (below_floor s c spec x) in
    meets-keep p (r ∷ rs) chatter.roles
      (sym (holds_allowed-not_empty (keep p (r ∷ rs)) chatter) ∙ h)

allowed_floor :
    (s : PolicyService) (ctx : ExecContext) (m : String) (f : ℕ) (spec : CommandSpec)
    (allowed : Option (List String)) (invoker : Option Chatter)
    → ctx.invoker ≡ invoker
    → spec.min_role ≡ some m
    → rank_of s ctx.channel.id m ≡ some f
    → holds_allowed (floored s ctx.channel.id spec allowed) invoker ≡ true
    → HoldsRank s ctx f
allowed_floor s ctx m f spec allowed none i e g h =
    absurd (ground (arith, holds_allowed-nobody (floored s ctx.channel.id spec allowed)))
allowed_floor s ctx m f spec allowed (some chatter) i e g h =
    let (x, kept, held) = holds_allowed-floored s ctx.channel.id spec allowed chatter h in
    let (k, known, le) = above_floor s ctx.channel.id m f spec x e g (ground arith) in
    (chatter, x, k, i, held, known, le)

-- `required_role` of a command with a floor, its two parts.
required_role-floor :
    (s : PolicyService) (c m : String) (spec : CommandSpec)
    → spec.min_role ≡ some m
    → required_role s c spec ≡ (
      (if below_floor s c spec (rule_required (rule_of s c spec) spec.required_role)
          then m
          else rule_required (rule_of s c spec) spec.required_role),
      floored s c spec (rule_allowed (rule_of s c spec)),
    )
unfolding required_role
required_role-floor s c m spec e = rw e

reached_floor :
    (s : PolicyService) (c m : String) (f rank : ℕ) (spec : CommandSpec) (required : String)
    → spec.min_role ≡ some m
    → rank_of s c m ≡ some f
    → reaches rank (rank_of s c (if below_floor s c spec required then m else required)) ≡ true
    → f ≤ rank
reached_floor s c m f rank spec required e g h = elim (Bool-cases (below_floor s c spec required)) [
  | inl low ↦ ground arith
  | inr high ↦
      let (r, known, le) = above_floor s c m f spec required e g high in ground (arith, known, high)
]

-- Whatever rules a channel has set, a run that the permission check lets through reaches the floor of
-- the command's pack: by its rank, or by a role of the invoker whose rank reaches it. This is for a
-- command that is no sentinel and whose floor role has a rank.
pub permission-floor :
    (s : PolicyService) (ctx : ExecContext) (spec : CommandSpec) (m : String) (f : ℕ)
    → spec.fixed_policy ≡ false
    → spec.min_role ≡ some m
    → rank_of s ctx.channel.id m ≡ some f
    → permission s ctx spec ≡ none
    → (f ≤ effective_rank ctx) ⊎ HoldsRank s ctx f
unfolding permission
permission-floor s ctx spec m f free e g h =
    let c = ctx.channel.id in
    let required = rule_required (rule_of s c spec) spec.required_role in
    let allowed = floored s c spec (rule_allowed (rule_of s c spec)) in
    let h' = rw (required_role-floor s c m spec e) at h in
    elim (Bool-cases (holds_allowed allowed ctx.invoker)) [
      | inl held ↦
          inr (
            allowed_floor s ctx m f spec (rule_allowed (rule_of s c spec)) ctx.invoker refl e g
              held)
      | inr other ↦ inl (
          reached_floor s c m f (effective_rank ctx) spec required e g
            (ground (arith, h', other, free)))
    ]

reaches_mono :
    (a b : ℕ) (required : Option ℕ) → a ≤ b → reaches a required ≡ true → reaches b required ≡ true
reaches_mono a b none le h = h
reaches_mono a b (some r) le h = ground arith

-- More rank never takes permission away: of two runs in one channel that differ in their rank alone,
-- the one with the higher rank passes wherever the other does.
pub permission-rank_mono :
    (s : PolicyService) (low high : ExecContext) (spec : CommandSpec)
    → low.channel.id ≡ high.channel.id
    → low.invoker ≡ high.invoker
    → effective_rank low ≤ effective_rank high
    → permission s low spec ≡ none
    → permission s high spec ≡ none
unfolding permission
permission-rank_mono s low high spec c i le h =
    let required = rank_of s low.channel.id (required_role s low.channel.id spec).0 in
    rw (← c, ← i)
      (ground (arith, reaches_mono (effective_rank low) (effective_rank high) required le))

permission-denied :
    (s : PolicyService) (ctx : ExecContext) (spec : CommandSpec) (d : Decision)
    → permission s ctx spec ≡ some d
    → (d.allowed ≡ false) × (d.code ≡ code_denied)
unfolding permission
permission-denied s ctx spec d h = ground arith

gate_available-refusal :
    (s : PolicyService) (ctx : ExecContext) (spec : CommandSpec) (lacks : List String)
    (d : Decision)
    → gate_available s ctx spec lacks ≡ some d
    → (d.allowed ≡ false) × ((d.code ≡ code_denied) ⊎ (d.code ≡ code_unknown))
unfolding gate_available
gate_available-refusal s ctx spec [] d h =
    let (refused, code) = permission-denied s ctx spec d h in (refused, inl code)
gate_available-refusal s ctx spec (c ∷ cs) d h = ground arith

gate_available-pass :
    (s : PolicyService) (ctx : ExecContext) (spec : CommandSpec) (lacks : List String)
    → gate_available s ctx spec lacks ≡ none
    → (lacks ≡ []) × (permission s ctx spec ≡ none)
unfolding gate_available
gate_available-pass s ctx spec [] h = (refl, h)
gate_available-pass s ctx spec (c ∷ cs) h = cc

gate-refusal :
    (s : PolicyService) (ctx : ExecContext) (spec : CommandSpec) (d : Decision)
    → gate s ctx spec ≡ some d
    → (d.allowed ≡ false) × ((d.code ≡ code_denied) ⊎ (d.code ≡ code_unknown))
unfolding gate
gate-refusal s ctx spec d h = elim (Bool-cases (is_enabled s ctx.channel.id spec)) [
  | inl on ↦ gate_available-refusal s ctx spec (missing ctx spec) d (ground (arith, on))
  | inr off ↦ ground (arith, off)
]

gate-pass :
    (s : PolicyService) (ctx : ExecContext) (spec : CommandSpec)
    → gate s ctx spec ≡ none
    → (is_enabled s ctx.channel.id spec ≡ true)
      × (missing ctx spec ≡ [])
      × (permission s ctx spec ≡ none)
unfolding gate
gate-pass s ctx spec h = elim (Bool-cases (is_enabled s ctx.channel.id spec)) [
  | inl on ↦
      let (have, may) = gate_available-pass s ctx spec (missing ctx spec) (ground (arith, on)) in
      (on, have, may)
  | inr off ↦ absurd (ground (arith, off))
]

-- Preflight: a run is permitted exactly when the check allows it; the check allows with the code 0 and
-- refuses with 126 (the permission) or 127 (a toggle, a capability), and with no other.
pub check_lem :
    (s : PolicyService) (ctx : ExecContext) (spec : CommandSpec)
    → (is_permitted s ctx spec ≡ (check s ctx spec).allowed)
      × ((check s ctx spec).allowed ≡ true
          → (check s ctx spec ≡ allow)
            × (is_enabled s ctx.channel.id spec ≡ true)
            × (missing ctx spec ≡ [])
            × (permission s ctx spec ≡ none))
      × ((check s ctx spec).allowed ≡ false
          → ((check s ctx spec).code ≡ code_denied) ⊎ ((check s ctx spec).code ≡ code_unknown))
unfolding is_permitted check
check_lem s ctx spec = elim (Option-cases (gate s ctx spec)) [
  | inl clear ↦ rw clear (
    refl,
    (λ h. let (on, have, may) = gate-pass s ctx spec clear in (refl, on, have, may)),
    (λ h. cc),
  )
  | inr (d, shut) ↦
      let (refused, code) = gate-refusal s ctx spec d shut in
      rw shut (sym refused, (λ h. absurd (ground arith)), (λ h. code))
]
