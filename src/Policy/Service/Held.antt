-- ===== src/Policy/Service/Held.antt =====
-- Which roles a chatter has, from the badges and the tables.
use doomtp_bot.Prelude.{
  ℕ, ◌≤◌, String, ◌≡◌, refl, sym, ◌∙◌, ap, inl, inr, Bool, true, false, not, ◌&&◌, ◌||◌, Option,
  none, some, List, [], ◌∷◌, arith, ◌==◌, string_eq, nat_eq, is_some, or_default, contains, any,
  contains-sort, Bool-cases, Option-cases, ltb,
}
use doomtp_bot.Prelude.Dict
use doomtp_bot.Prelude.Dict.{Dict, get-put, contains-keys}
use doomtp_bot.Policy.Roles.{
  Role, roles_from_badges, global, builtin_ranks, broadcaster_rank, bot_admin_rank, bot_owner_rank,
}
use doomtp_bot.Policy.Snapshot.{
  PolicySnapshot, Membership, expired, add_role, roles_of_memberships, custom_roles_for,
}
use doomtp_bot.Policy.Service.{PolicyService}
use doomtp_bot.Policy.Service.Chatters.{
  add_badge_roles, add_custom_roles, put_if, named_roles, role_before, build_chatter,
}
use doomtp_bot.Policy.Service.Ranks.{build_chatter-rank}

-- A role of the channel or of every channel, under the name.
abbrev pub is_here : String → String → Option Role → Bool
is_here channel_id name none = false
is_here channel_id name (some role) =
    ((role.channel_id == channel_id) || (role.channel_id == global)) && (role.name == name)

-- A time that is still to come, or never does.
abbrev pub is_ahead : ℕ → Option ℕ → Bool
is_ahead now none = true
is_ahead now (some at) = ltb now at

-- A membership that is not over, of a custom role with the name, of the channel or of every channel.
abbrev pub grants : PolicySnapshot → ℕ → String → String → Membership → Bool
grants snap now channel_id name m =
    is_ahead now m.expires_at && is_here channel_id name (Dict.get m.role_id snap.roles_by_id)

-- Who has the role of a name: everyone the role of everyone, the wearer of a badge the badge's role, the
-- channel's own user the broadcaster's, the members of a custom role that role, and the bot's admins and
-- owners theirs.
abbrev pub is_held : PolicyService → ℕ → String → String → List String → String → Bool
is_held s now channel_id user_id badges name =
    (contains user_id s.owners && ("bot_owner" == name))
    || ((contains user_id s.snapshot.global_admins && ("bot_admin" == name))
        || (any (grants s.snapshot now channel_id name)
              (or_default (Dict.get user_id s.snapshot.memberships) [])
            || (((user_id == channel_id) && ("broadcaster" == name))
                || (contains name (roles_from_badges badges) || ("everyone" == name)))))

is_ahead-expired : (now : ℕ) (m : Membership) → is_ahead now m.expires_at ≡ not (expired now m)
unfolding expired
is_ahead-expired now m = elim (Option-cases m.expires_at) [
  | inl never ↦ rw never refl
  | inr (at, set) ↦ rw set (ground arith)
]

module _ (name : String) where
  abbrev has : Dict String ℕ → Bool
  has d = is_some (Dict.get name d)

  has-put : (k : String) (r : ℕ) (d : Dict String ℕ) → has (Dict.put k r d) ≡ ((k == name) || has d)
  has-put k r d = ground (arith, get-put k name r d)

  has-put_if :
      (b : Bool) (k : String) (r : ℕ) (d : Dict String ℕ)
      → has (put_if b k r d) ≡ ((b && (k == name)) || has d)
  has-put_if true k r d = has-put k r d
  has-put_if false k r d = refl

  has-everyone : has (("everyone", 0) ∷ []) ≡ ("everyone" == name)
  unfolding Dict.get
  has-everyone = ground arith

  has-add_badge_roles :
      (bs : List String) (d : Dict String ℕ)
      → has (add_badge_roles bs d) ≡ (contains name bs || has d)
  unfolding add_badge_roles
  has-add_badge_roles [] d = refl
  has-add_badge_roles (b ∷ bs) d =
      let r = or_default (Dict.get b builtin_ranks) 0 in
      ground (arith, has-add_badge_roles bs (Dict.put b r d), has-put b r d)

  has-add_custom_roles :
      (rs : List Role) (d : Dict String ℕ)
      → has (add_custom_roles rs d) ≡ (any (λ r. r.name == name) rs || has d)
  unfolding add_custom_roles
  has-add_custom_roles [] d = refl
  has-add_custom_roles (r ∷ rs) d =
      ground (arith, has-add_custom_roles rs (Dict.put r.name r.rank d), has-put r.name r.rank d)

  any-add_role :
      (channel_id : String) (role : Option Role) (rest : List Role)
      → any (λ r. r.name == name) (add_role channel_id role rest)
        ≡ (is_here channel_id name role || any (λ r. r.name == name) rest)
  any-add_role channel_id none rest = refl
  any-add_role channel_id (some role) rest =
      elim (Bool-cases ((role.channel_id == channel_id) || (role.channel_id == global))) [
        | inl here ↦ rw here (ground arith)
        | inr away ↦ rw away refl
      ]

  any-roles_of_memberships :
      (snap : PolicySnapshot) (now : ℕ) (channel_id : String) (ms : List Membership)
      → any (λ r. r.name == name) (roles_of_memberships snap now channel_id ms)
        ≡ any (grants snap now channel_id name) ms
  unfolding roles_of_memberships
  any-roles_of_memberships snap now channel_id [] = refl
  any-roles_of_memberships snap now channel_id (m ∷ ms) =
      let ih = any-roles_of_memberships snap now channel_id ms in
      let rest = roles_of_memberships snap now channel_id ms in
      elim (Bool-cases (expired now m)) [
        | inl over ↦ rw over (ground (arith, over, is_ahead-expired now m, ih))
        | inr lasts ↦ rw lasts (
            ground (
              arith,
              lasts,
              is_ahead-expired now m,
              any-add_role channel_id (Dict.get m.role_id snap.roles_by_id) rest,
              ih,
            ))
      ]

  has-named_roles :
      (s : PolicyService) (now : ℕ) (c u : String) (badges : List String)
      → has (named_roles s now c u badges) ≡ is_held s now c u badges name
  unfolding named_roles custom_roles_for
  has-named_roles s now c u badges =
      let everyone : Dict String ℕ = ("everyone", 0) ∷ [] in
      let badge_names = add_badge_roles (roles_from_badges badges) everyone in
      let with_own = put_if (u == c) "broadcaster" broadcaster_rank badge_names in
      let custom = custom_roles_for s.snapshot now c u in
      let with_custom = add_custom_roles custom with_own in
      let admin = contains u s.snapshot.global_admins in
      let with_admin = put_if admin "bot_admin" bot_admin_rank with_custom in
      let ms = or_default (Dict.get u s.snapshot.memberships) [] in
      has-put_if (contains u s.owners) "bot_owner" bot_owner_rank with_admin
      ∙ ap (λ b. (contains u s.owners && ("bot_owner" == name)) || b)
          (has-put_if admin "bot_admin" bot_admin_rank with_custom
            ∙ ap (λ b. (admin && ("bot_admin" == name)) || b)
                (has-add_custom_roles custom with_own
                  ∙ ap (λ b. b || has with_own) (any-roles_of_memberships s.snapshot now c ms)
                  ∙ ap (λ b. any (grants s.snapshot now c name) ms || b)
                      (has-put_if (u == c) "broadcaster" broadcaster_rank badge_names
                        ∙ ap (λ b. ((u == c) && ("broadcaster" == name)) || b)
                            (has-add_badge_roles (roles_from_badges badges) everyone
                              ∙ ap (λ b. contains name (roles_from_badges badges) || b)
                                  has-everyone))))

-- The roles of a chatter are exactly those that the badges, the channel, the memberships that are not
-- over and the lists of admins and owners give; the rank is the rank of one of them, and none of them
-- ranks higher.
pub build_chatter-held :
    (s : PolicyService) (now : ℕ) (c u login display : String) (badges : List String)
    → ((name : String)
        → contains name (build_chatter s now c u login display badges).roles
          ≡ is_held s now c u badges name)
      × ((name : String) × (is_held s now c u badges name ≡ true)
          × (Dict.get name (named_roles s now c u badges)
              ≡ some (build_chatter s now c u login display badges).rank))
      × ((name : String) (r : ℕ)
          → Dict.get name (named_roles s now c u badges) ≡ some r
          → r ≤ (build_chatter s now c u login display badges).rank)
unfolding build_chatter
build_chatter-held s now c u login display badges =
    let names = named_roles s now c u badges in
    let (one, all) = build_chatter-rank s now c u login display badges in
    (
      (λ name.
          contains-sort (λ n. n.0) role_before name names
          ∙ contains-keys name names
          ∙ has-named_roles name s now c u badges),
      (one.0, sym (has-named_roles one.0 s now c u badges) ∙ ap is_some one.1, one.1),
      all,
    )
