-- ===== src/Policy/Service/Ranks.antt =====
-- The rank of a chatter.
use doomtp_bot.Prelude.{
  ℕ, ◌≤◌, String, ◌≡◌, ◌≢◌, refl, ◌∙◌, inl, inr, Bool, true, false, some, List, [], ◌∷◌, arith, leb,
  ◌==◌, string_eq, eq_iff, contains, Bool-cases,
}
use doomtp_bot.Prelude.Dict
use doomtp_bot.Prelude.Dict.{Dict, get-put, get-put_self}
use doomtp_bot.Prelude.Dict.Distinct.{Distinct, Distinct-put}
use doomtp_bot.Policy.Roles.{Role, roles_from_badges}
use doomtp_bot.Policy.Snapshot.{custom_roles_for}
use doomtp_bot.Policy.Service.{PolicyService}
use doomtp_bot.Policy.Service.Chatters.{
  add_badge_roles, add_custom_roles, put_if, named_roles, max_rank, build_chatter, rank-le-max_rank,
}

-- A dictionary of names with at least one entry, each key once.
abbrev IsNames : Dict String ℕ → Type 0
IsNames names = Distinct names × (names ≢ [])

put-ne_nil : (k : String) (r : ℕ) (d : Dict String ℕ) → Dict.put k r d ≢ []
unfolding Dict.put
put-ne_nil k r [] h = cc
put-ne_nil k r ((j, v) ∷ d) h = ground arith

put-IsNames : (k : String) (r : ℕ) (d : Dict String ℕ) → IsNames d → IsNames (Dict.put k r d)
put-IsNames k r d n = (Distinct-put k r d n.0, put-ne_nil k r d)

put_if-IsNames :
    (b : Bool) (k : String) (r : ℕ) (d : Dict String ℕ) → IsNames d → IsNames (put_if b k r d)
put_if-IsNames true k r d n = put-IsNames k r d n
put_if-IsNames false k r d n = n

add_badge_roles-IsNames :
    (bs : List String) (d : Dict String ℕ) → IsNames d → IsNames (add_badge_roles bs d)
unfolding add_badge_roles
add_badge_roles-IsNames [] d n = n
add_badge_roles-IsNames (b ∷ bs) d n = add_badge_roles-IsNames bs _ (put-IsNames b _ d n)

add_custom_roles-IsNames :
    (rs : List Role) (d : Dict String ℕ) → IsNames d → IsNames (add_custom_roles rs d)
unfolding add_custom_roles
add_custom_roles-IsNames [] d n = n
add_custom_roles-IsNames (r ∷ rs) d n =
    add_custom_roles-IsNames rs _ (put-IsNames r.name r.rank d n)

named_roles-IsNames :
    (s : PolicyService) (now : ℕ) (c u : String) (badges : List String)
    → IsNames (named_roles s now c u badges)
unfolding named_roles
named_roles-IsNames s now c u badges = put_if-IsNames (contains u s.owners) _ _ _ (
    put_if-IsNames (contains u s.snapshot.global_admins) _ _ _ (
      add_custom_roles-IsNames (custom_roles_for s.snapshot now c u) _ (
        put_if-IsNames (u == c) _ _ _ (
          add_badge_roles-IsNames (roles_from_badges badges) _
            ((unfold Dict.get in refl, tt), (λ h. cc))))))

max_rank-attained :
    (names : Dict String ℕ)
    → Distinct names
    → names ≢ []
    → (name : String) × (Dict.get name names ≡ some (max_rank names))
unfolding max_rank Dict.get
max_rank-attained [] u h = absurd (h refl)
max_rank-attained ((j, k) ∷ []) u h = (j, ground (arith, eq_iff j j))
max_rank-attained ((j, k) ∷ (i, l) ∷ names) u h =
    elim (Bool-cases (leb (max_rank ((i, l) ∷ names)) k)) [
      | inl top ↦ (j, ground (arith, eq_iff j j, top))
      | inr deeper ↦
          let (name, found) = max_rank-attained ((i, l) ∷ names) u.1 (λ e. cc) in
          (name, ground (arith, eq_iff j name, found, u.0, deeper))
    ]

-- A chatter's rank is the rank of one of the named roles, and none of these ranks higher.
pub build_chatter-rank :
    (s : PolicyService) (now : ℕ) (c u login display : String) (badges : List String)
    → ((name : String) × (Dict.get name (named_roles s now c u badges)
          ≡ some (build_chatter s now c u login display badges).rank))
      × ((name : String) (r : ℕ)
          → Dict.get name (named_roles s now c u badges) ≡ some r
          → r ≤ (build_chatter s now c u login display badges).rank)
unfolding build_chatter
build_chatter-rank s now c u login display badges =
    let names = named_roles s now c u badges in
    let (distinct, some_name) = named_roles-IsNames s now c u badges in
    (max_rank-attained names distinct some_name, (λ name r h. rank-le-max_rank name r names h))

get-put_if_self :
    (b : Bool) (k : String) (r : ℕ) (d : Dict String ℕ)
    → b ≡ true
    → Dict.get k (put_if b k r d) ≡ some r
get-put_if_self b k r d h = rw h (get-put_self k r d)

get-put_if_ne :
    (b : Bool) (k j : String) (r : ℕ) (d : Dict String ℕ)
    → (k == j) ≡ false
    → Dict.get j (put_if b k r d) ≡ Dict.get j d
get-put_if_ne true k j r d h = ground (arith, get-put k j r d)
get-put_if_ne false k j r d h = refl

-- An owner of the bot ranks 10000 at least and a bot admin 1000 at least, in every channel and
-- whatever badges and custom roles they hold.
pub build_chatter-standing :
    (s : PolicyService) (now : ℕ) (c u login display : String) (badges : List String)
    → (contains u s.owners ≡ true → 10000 ≤ (build_chatter s now c u login display badges).rank)
      × (contains u s.snapshot.global_admins ≡ true
          → 1000 ≤ (build_chatter s now c u login display badges).rank)
unfolding build_chatter named_roles
build_chatter-standing s now c u login display badges = (
  (λ h.
      rank-le-max_rank "bot_owner" 10000 _
        (get-put_if_self (contains u s.owners) "bot_owner" 10000 _ h)),
  (λ h. rank-le-max_rank "bot_admin" 1000 _ (
      get-put_if_ne (contains u s.owners) "bot_owner" "bot_admin" 10000 _ refl
      ∙ get-put_if_self (contains u s.snapshot.global_admins) "bot_admin" 1000 _ h)),
)
