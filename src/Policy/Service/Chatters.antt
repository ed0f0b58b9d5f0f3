-- ===== src/Policy/Service/Chatters.antt =====
-- policy/service.py: who a chatter is (`build_chatter`), and who is ignored.
use doomtp_bot.Prelude.{
  ℕ, ◌≤◌, String, ◌≡◌, Bool, true, false, ◌&&◌, ◌||◌, Option, none, some, List, [], ◌∷◌, arith, ltb,
  eqb, max, ◌==◌, string_eq, nat_eq, or_default, sort, all, map, contains, if◌then◌else◌,
}
use doomtp_bot.Prelude.Dict
use doomtp_bot.Prelude.Dict.{Dict, get-put}
use doomtp_bot.Policy.Roles.{
  Role, global, builtin_ranks, roles_from_badges, bot_admin_rank, bot_owner_rank, broadcaster_rank,
}
use doomtp_bot.Policy.Snapshot.{IgnoreEntry, custom_roles_for}
use doomtp_bot.Policy.Service.{PolicyService, Chatter, text_le}

-- for name in roles_from_badges(badges): names[name] = BUILTIN_RANKS[name]
unfoldable pub add_badge_roles : List String → Dict String ℕ → Dict String ℕ
add_badge_roles [] names = names
add_badge_roles (name ∷ rest) names =
    add_badge_roles rest (Dict.put name (or_default (Dict.get name builtin_ranks) 0) names)

-- for role in custom_roles_for(…): names[role.name] = role.rank
unfoldable pub add_custom_roles : List Role → Dict String ℕ → Dict String ℕ
add_custom_roles [] names = names
add_custom_roles (role ∷ rest) names = add_custom_roles rest (Dict.put role.name role.rank names)

abbrev pub put_if : Bool → String → ℕ → Dict String ℕ → Dict String ℕ
put_if test name rank names = if test then Dict.put name rank names else names

unfoldable pub named_roles : PolicyService → ℕ → String → String → List String → Dict String ℕ
named_roles s now_ms channel_id user_id badges =
    let badge_names = add_badge_roles (roles_from_badges badges) (("everyone", 0) ∷ []) in
    let with_own = put_if (user_id == channel_id) "broadcaster" broadcaster_rank badge_names in
    let with_custom =
      add_custom_roles (custom_roles_for s.snapshot now_ms channel_id user_id) with_own in
    put_if (contains user_id s.owners) "bot_owner" bot_owner_rank
      (put_if (contains user_id s.snapshot.global_admins) "bot_admin" bot_admin_rank with_custom)

-- key=lambda n: (-names[n], n)
unfoldable pub role_before : String × ℕ → String × ℕ → Bool
role_before (a, i) (b, j) = ltb j i || (eqb i j && text_le a b)

-- max(names.values())
unfoldable pub max_rank : Dict String ℕ → ℕ
max_rank [] = 0
max_rank ((name, rank) ∷ names) = max rank (max_rank names)

unfoldable pub build_chatter :
    PolicyService → ℕ → String → String → String → String → List String → Chatter
build_chatter s now_ms channel_id user_id login display badges =
    let names = named_roles s now_ms channel_id user_id badges in
    record {
      id = user_id;
      login = login;
      display = (if display == "" then login else display);
      badges = badges;
      roles = map (λ n. n.0) (sort role_before names);
      rank = max_rank names;
    }

unfoldable pub is_bot_admin : PolicyService → String → Bool
is_bot_admin s user_id = contains user_id s.owners || contains user_id s.snapshot.global_admins

unfoldable pub ignored_in : PolicyService → String → List String
ignored_in s scope = or_default (Dict.get scope s.snapshot.ignored) []

unfoldable pub is_ignored : PolicyService → String → String → Bool
is_ignored s channel_id user_id =
    contains user_id (ignored_in s channel_id) || contains user_id (ignored_in s global)

unfoldable pub ignore_entry : PolicyService → String → String → Option IgnoreEntry
ignore_entry s scope user_id =
    Dict.get user_id (or_default (Dict.get scope s.snapshot.ignore_entries) [])

abbrev pub add_entry : Option IgnoreEntry → List IgnoreEntry → List IgnoreEntry
add_entry none rest = rest
add_entry (some e) rest = e ∷ rest

-- e.added_by == user_id
abbrev pub added_by_self : String → IgnoreEntry → Bool
added_by_self user_id e = elim e.added_by [ none ↦ false | some who ↦ who == user_id ]

abbrev pub not_nil {ℓ} : {A : Type ℓ} → List A → Bool
not_nil [] = false
not_nil (x ∷ xs) = true

unfoldable pub ignored_only_by_self : PolicyService → String → String → Bool
ignored_only_by_self s channel_id user_id =
    let entries =
      add_entry (ignore_entry s channel_id user_id)
        (add_entry (ignore_entry s global user_id) []) in
    not_nil entries && all (added_by_self user_id) entries

-- The rank of a name is at most the greatest.
pub rank-le-max_rank :
    (name : String) (rank : ℕ) (names : Dict String ℕ)
    → Dict.get name names ≡ some rank
    → rank ≤ max_rank names
unfolding max_rank Dict.get
rank-le-max_rank name rank [] h = absurd (ground arith)
rank-le-max_rank name rank ((j, k) ∷ names) h = ground (arith, rank-le-max_rank name rank names)
