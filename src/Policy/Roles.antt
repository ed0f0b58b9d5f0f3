-- ===== src/Policy/Roles.antt =====
-- policy/roles.py: roles and their ranks.
use doomtp_bot.Prelude.{
  ℕ, ◌≤◌, ◌<◌, String, ◌≡◌, ◌⊎◌, Bool, true, ◌&&◌, Option, none, some, List, [], ◌∷◌, arith, leb,
  ltb, string_eq, if◌then◌else◌,
}
use doomtp_bot.Prelude.Dict
use doomtp_bot.Prelude.Dict.{Dict}

-- GLOBAL
abbrev pub global : String
global = "*"

unfoldable pub builtin_ranks : Dict String ℕ
builtin_ranks =
    ("everyone", 0)
    ∷ ("subscriber", 20)
    ∷ ("vip", 60)
    ∷ ("moderator", 80)
    ∷ ("lead_moderator", 90)
    ∷ ("broadcaster", 100)
    ∷ ("bot_admin", 1000)
    ∷ ("bot_owner", 10000)
    ∷ []

abbrev pub moderator_rank : ℕ
moderator_rank = 80

abbrev pub broadcaster_rank : ℕ
broadcaster_rank = 100

abbrev pub bot_admin_rank : ℕ
bot_admin_rank = 1000

abbrev pub bot_owner_rank : ℕ
bot_owner_rank = 10000

abbrev pub custom_rank_min : ℕ
custom_rank_min = 1

abbrev pub custom_rank_max : ℕ
custom_rank_max = 99

unfoldable pub badge_roles : Dict String String
badge_roles =
    ("broadcaster", "broadcaster")
    ∷ ("lead_moderator", "lead_moderator")
    ∷ ("moderator", "moderator")
    ∷ ("vip", "vip")
    ∷ ("subscriber", "subscriber")
    ∷ ("founder", "subscriber")
    ∷ []

pub record Role : Type 0 where
  pub id : ℕ
  pub channel_id : String
  pub name : String
  pub rank : ℕ
  pub builtin : Bool

abbrev add_some : Option String → List String → List String
add_some none rest = rest
add_some (some x) rest = x ∷ rest

-- A set, as a list that may name a role twice.
unfoldable pub roles_from_badges : List String → List String
roles_from_badges [] = []
roles_from_badges (b ∷ bs) = add_some (Dict.get b badge_roles) (roles_from_badges bs)

unfoldable pub can_manage_role : ℕ → ℕ → Bool → Bool → Bool
can_manage_role actor_rank role_rank actor_is_broadcaster role_is_channel =
    if actor_is_broadcaster
      && (role_is_channel && (leb custom_rank_min role_rank && leb role_rank custom_rank_max))
    then true
    else ltb role_rank actor_rank

-- A role that an actor may manage ranks below the actor, or is a custom role of the channel that the
-- actor broadcasts; and every such role may be managed.
pub can_manage_role_lem :
    (actor_rank role_rank : ℕ) (actor_is_broadcaster role_is_channel : Bool)
    → (can_manage_role actor_rank role_rank actor_is_broadcaster role_is_channel ≡ true
        → (role_rank < actor_rank)
          ⊎ ((actor_is_broadcaster ≡ true)
              × (role_is_channel ≡ true)
              × (1 ≤ role_rank)
              × (role_rank ≤ 99)))
      × ((role_rank < actor_rank)
            ⊎ ((actor_is_broadcaster ≡ true)
                × (role_is_channel ≡ true)
                × (1 ≤ role_rank)
                × (role_rank ≤ 99))
          → can_manage_role actor_rank role_rank actor_is_broadcaster role_is_channel ≡ true)
unfolding can_manage_role
can_manage_role_lem actor_rank role_rank actor_is_broadcaster role_is_channel =
    (λ h. ground arith, λ h. ground arith)
