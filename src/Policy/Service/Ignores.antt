-- ===== src/Policy/Service/Ignores.antt =====
-- Who is ignored, and by whom: from the rows to the index of ids and the entries.
use doomtp_bot.Prelude.{
  String, Bool, eq_iff, or_else, any, ap, ◌∙◌, if◌then◌else◌, ◌≡◌, refl, inl, inr, true, false,
  ◌&&◌, ◌||◌, Option, none, some, List, [], ◌∷◌, arith, ◌==◌, string_eq, or_default, is_some,
  contains, all, Bool-cases,
}
use mathlib.Core.Path.{subst}
use doomtp_bot.Prelude.Dict
use doomtp_bot.Prelude.Dict.{Dict, get-put, contains-keys}
use doomtp_bot.Policy.Roles.{global}
use doomtp_bot.Policy.Snapshot.{IgnoreEntry}
use doomtp_bot.Policy.Load.{Tables, IgnoreRow, each, add_ignore, ignored_ids, load_snapshot}
use doomtp_bot.Policy.Service.{PolicyService}
use doomtp_bot.Policy.Service.Chatters.{
  ignored_in, is_ignored, ignore_entry, ignored_only_by_self, add_entry, added_by_self, not_nil,
}

-- The ids of a scope are those that have an entry there.
pub record IsIndexed (s : PolicyService) : Type 0 where
  pub at :
      (scope user : String)
      → contains user (ignored_in s scope) ≡ is_some (ignore_entry s scope user)

contains-ignored_ids :
    (scope user : String) (d : Dict String (Dict String IgnoreEntry))
    → contains user (or_default (Dict.get scope (ignored_ids d)) [])
      ≡ is_some (Dict.get user (or_default (Dict.get scope d) []))
unfolding Dict.get ignored_ids
contains-ignored_ids scope user [] = refl
contains-ignored_ids scope user ((j, entries) ∷ d) = elim (Bool-cases (j == scope)) [
  | inl same ↦ rw same (unfold Dict.get in contains-keys user entries)
  | inr other ↦ rw other (contains-ignored_ids scope user d)
]

-- The index of ids of a loaded snapshot agrees with its entries.
pub load_snapshot-IsIndexed :
    (s : PolicyService) (loads : String → List String) (t : Tables)
    → IsIndexed (record s { snapshot = load_snapshot loads t })
unfolding load_snapshot ignored_in ignore_entry
load_snapshot-IsIndexed s loads t = record { at = λ scope user. contains-ignored_ids scope user _ }

-- The row that ignores a user in a scope.
abbrev pub is_about : String → String → IgnoreRow → Bool
is_about scope user r = (r.channel_id == scope) && (r.entry.user_id == user)

-- The entry of the last row about a user in a scope.
abbrev pub last_about : String → String → List IgnoreRow → Option IgnoreEntry
last_about scope user [] = none
last_about scope user (r ∷ rows) =
    or_else (last_about scope user rows) (if is_about scope user r then some r.entry else none)

abbrev entry_in : String → String → Dict String (Dict String IgnoreEntry) → Option IgnoreEntry
entry_in scope user d = Dict.get user (or_default (Dict.get scope d) [])

entry_in-add_ignore :
    (scope user : String) (r : IgnoreRow) (d : Dict String (Dict String IgnoreEntry))
    → entry_in scope user (add_ignore d r)
      ≡ (if is_about scope user r then some r.entry else entry_in scope user d)
unfolding add_ignore
entry_in-add_ignore scope user r d =
    let inner = or_default (Dict.get r.channel_id d) [] in
    rw (get-put r.channel_id scope (Dict.put r.entry.user_id r.entry inner) d)
      (elim (Bool-cases (r.channel_id == scope)) [
        | inl same ↦ rw same (
            rw (get-put r.entry.user_id user r.entry inner)
              (ground (arith, (eq_iff r.channel_id scope).0 same)))
        | inr other ↦ rw other refl
      ])

or_else_moved :
    (found rest : Option IgnoreEntry) (b : Bool) (e : IgnoreEntry)
    → or_else found (if b then some e else rest)
      ≡ or_else (or_else found (if b then some e else none)) rest
or_else_moved (some x) rest b e = refl
or_else_moved none rest true e = refl
or_else_moved none rest false e = refl

or_else-none : (found : Option IgnoreEntry) → or_else found none ≡ found
or_else-none none = refl
or_else-none (some e) = refl

entry_in_empty : (scope user : String) → entry_in scope user [] ≡ none
unfolding Dict.get
entry_in_empty scope user = refl

entry_in-each :
    (scope user : String) (rows : List IgnoreRow) (d : Dict String (Dict String IgnoreEntry))
    → entry_in scope user (each add_ignore d rows)
      ≡ or_else (last_about scope user rows) (entry_in scope user d)
entry_in-each scope user [] d = refl
entry_in-each scope user (r ∷ rows) d =
    entry_in-each scope user rows (add_ignore d r)
    ∙ ap (or_else (last_about scope user rows)) (entry_in-add_ignore scope user r d)
    ∙ or_else_moved (last_about scope user rows) (entry_in scope user d) (is_about scope user r)
        r.entry

is_some-last_about :
    (scope user : String) (rows : List IgnoreRow)
    → is_some (last_about scope user rows) ≡ any (is_about scope user) rows
is_some-last_about scope user [] = refl
is_some-last_about scope user (r ∷ rows) = ground (arith, is_some-last_about scope user rows)

-- In a snapshot built from any rows, a user is ignored in a scope exactly if a row of the ignore list is
-- about that user in that scope, and the entry that is found is the one of the last such row.
pub load_snapshot-ignored :
    (s : PolicyService) (loads : String → List String) (t : Tables) (scope user : String)
    → (contains user (ignored_in (record s { snapshot = load_snapshot loads t }) scope)
        ≡ any (is_about scope user) t.ignore_list)
      × (ignore_entry (record s { snapshot = load_snapshot loads t }) scope user
          ≡ last_about scope user t.ignore_list)
unfolding load_snapshot ignore_entry ignored_in
load_snapshot-ignored s loads t scope user =
    let about = last_about scope user t.ignore_list in
    let found : entry_in scope user (each add_ignore [] t.ignore_list) ≡ about =
      entry_in-each scope user t.ignore_list []
      ∙ ap (or_else about) (entry_in_empty scope user)
      ∙ or_else-none about in
    (
      contains-ignored_ids scope user (each add_ignore [] t.ignore_list)
          ∙ ap is_some found
          ∙ is_some-last_about scope user t.ignore_list,
      found,
    )

all_head :
    (user : String) (e : IgnoreEntry) (es : List IgnoreEntry)
    → all (added_by_self user) (e ∷ es) ≡ true
    → added_by_self user e ≡ true
all_head user e es h = elim (Bool-cases (added_by_self user e)) [
  | inl own ↦ own
  | inr other ↦ absurd (ground (arith, other, h))
]

all_tail :
    (user : String) (e : IgnoreEntry) (es : List IgnoreEntry)
    → all (added_by_self user) (e ∷ es) ≡ true
    → all (added_by_self user) es ≡ true
all_tail user e es h = elim (Bool-cases (added_by_self user e)) [
  | inl own ↦ ground (arith, own, h)
  | inr other ↦ absurd (ground (arith, other, h))
]

same_entry :
    (user : String) (e x : IgnoreEntry)
    → some e ≡ some x
    → added_by_self user e ≡ true
    → added_by_self user x ≡ true
same_entry user e x p h = let q : e ≡ x = cc p in subst (λ y. added_by_self user y ≡ true) q h

own_entries :
    (user : String) (here everywhere : Option IgnoreEntry)
    → (not_nil (add_entry here (add_entry everywhere []))
        && all (added_by_self user) (add_entry here (add_entry everywhere [])))
      ≡ true
    → ((is_some here || is_some everywhere) ≡ true)
      × ((e : IgnoreEntry) → here ≡ some e → added_by_self user e ≡ true)
      × ((e : IgnoreEntry) → everywhere ≡ some e → added_by_self user e ≡ true)
own_entries user none none h = cc
own_entries user (some e) none h =
    (refl, (λ x p. same_entry user e x p (all_head user e [] h)), (λ x p. cc))
own_entries user none (some g) h =
    (refl, (λ x p. cc), (λ x p. same_entry user g x p (all_head user g [] h)))
own_entries user (some e) (some g) h = (
  refl,
  (λ x p. same_entry user e x p (all_head user e (g ∷ []) h)),
  (λ x p. same_entry user g x p (all_head user g [] (all_tail user e (g ∷ []) h))),
)

-- With an index that agrees, a user who is ignored only by themselves is ignored, and every entry
-- about them, here or everywhere, was added by them.
pub ignored_only_by_self_lem :
    (s : PolicyService) (channel_id user_id : String)
    → IsIndexed s
    → ignored_only_by_self s channel_id user_id ≡ true
    → (is_ignored s channel_id user_id ≡ true)
      × ((e : IgnoreEntry)
          → ignore_entry s channel_id user_id ≡ some e
          → added_by_self user_id e ≡ true)
      × ((e : IgnoreEntry)
          → ignore_entry s global user_id ≡ some e
          → added_by_self user_id e ≡ true)
unfolding ignored_only_by_self is_ignored
ignored_only_by_self_lem s channel_id user_id v h =
    let (there, own_here, own_everywhere) =
      own_entries user_id (ignore_entry s channel_id user_id) (ignore_entry s global user_id) h in
    (rw (v.at channel_id user_id, v.at global user_id) there, own_here, own_everywhere)
