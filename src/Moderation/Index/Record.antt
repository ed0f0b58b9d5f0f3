-- ===== src/Moderation/Index/Record.antt =====
-- What the moderation index answers after it recorded a removal.
use doomtp_bot.Prelude.{
  ℕ, ◌+◌, ◌≤◌, String, ◌≡◌, ◌≢◌, refl, true, ◌&&◌, ◌||◌, Option, none, some, [], ◌∷◌, ◌++◌, arith,
  ltb, leb, ◌==◌, string_eq, pair_eq, is_some, length, inl, inr, Bool-cases, max, or_default,
  Comparable, sym, eq_iff, beq_refl,
}
use doomtp_bot.Prelude.Dict
use doomtp_bot.Prelude.Dict.{Dict, get-put, get-put_self}
use doomtp_bot.Prelude.Dict.Distinct.{Distinct, Distinct-put, Distinct-keep, get-keep, only}
use doomtp_bot.Core.Events.{Removal, message_deleted, user_messages_cleared, chat_cleared}
use doomtp_bot.Moderation.Index.{
  ModerationIndex, prune, prune_clears, put_last, record_removal, is_invalidated, was_deleted,
  user_cleared, cleared_since, deleted_ttl_ms, max_deleted,
}

get-last :
    (now : ℕ) (m : String) (d : Dict String ℕ) → is_some (Dict.get m (d ++ ((m, now) ∷ []))) ≡ true
unfolding Dict.get
get-last now m [] = ground (arith, beq_refl m)
get-last now m ((k, at) ∷ d) = ground (arith, get-last now m d)

-- The newest entry is not pruned.
prune-last :
    (now : ℕ) (m : String) (d : Dict String ℕ)
    → is_some (Dict.get m (prune now (d ++ ((m, now) ∷ [])))) ≡ true
unfolding prune Dict.get
prune-last now m [] = ground (arith, beq_refl m)
prune-last now m ((k, at) ∷ d) = ground (arith, get-last now m d, prune-last now m d)

-- Pruning leaves no more than the cap.
prune-length : (now : ℕ) (d : Dict String ℕ) → length (prune now d) ≤ max_deleted
unfolding prune
prune-length now [] = omega arith
prune-length now ((k, at) ∷ d) = ground (arith, prune-length now d)

-- A deleted message is invalid, whoever sent it and whenever.
pub record_removal-deleted :
    (ix : ModerationIndex) (now at sent_at : ℕ) (channel_id channel_id' message_id : String)
    (user_id : Option String)
    → message_id ≢ ""
    → is_invalidated
        (record_removal ix now (message_deleted channel_id message_id at))
        channel_id'
        (some message_id)
        user_id
        sent_at
      ≡ true
unfolding is_invalidated record_removal was_deleted put_last
record_removal-deleted ix now at sent_at channel_id channel_id' message_id user_id named =
    ground
      (arith, prune-last now message_id (Dict.remove message_id ix.deleted), eq_iff message_id "")

-- A later clear is added to an earlier one by keeping the latest.
cleared_since-max :
    (old : Option ℕ) (at sent_at : ℕ)
    → cleared_since (some (max (or_default old 0) at)) sent_at
      ≡ (cleared_since old sent_at || leb sent_at at)
cleared_since-max none at sent_at = ground arith
cleared_since-max (some before) at sent_at = ground arith

cleared_since-put {ℓ} :
    {K : Type ℓ} ⦃e : Comparable K⦄ (k j : K) (at sent_at : ℕ) (d : Dict K ℕ)
    → cleared_since (Dict.get j (Dict.put k (max (or_default (Dict.get k d) 0) at) d)) sent_at
      ≡ (cleared_since (Dict.get j d) sent_at || ((k == j) && leb sent_at at))
cleared_since-put ⦃e⦄ k j at sent_at d = elim (Bool-cases (e.same k j)) [
  | inl same ↦
      rw (sym ((e.same_iff k j).0 same), get-put_self, beq_refl k)
        (cleared_since-max (Dict.get k d) at sent_at)
  | inr other ↦ ground (arith, other, get-put k j (max (or_default (Dict.get k d) 0) at) d)
]

-- A chat clear invalidates exactly the channel's messages sent up to it, on top of what was invalid.
pub record_removal-chat_cleared :
    (ix : ModerationIndex) (now at sent_at : ℕ) (channel_id channel_id' : String)
    (message_id user_id : Option String)
    → is_invalidated
        (record_removal ix now (chat_cleared channel_id at))
        channel_id'
        message_id
        user_id
        sent_at
      ≡ (is_invalidated ix channel_id' message_id user_id sent_at
          || ((channel_id == channel_id') && leb sent_at at))
unfolding is_invalidated record_removal was_deleted user_cleared
record_removal-chat_cleared ix now at sent_at channel_id channel_id' message_id user_id =
    ground (arith, cleared_since-put channel_id channel_id' at sent_at ix.chat_clears)

-- Pruning old clears changes nothing for a message of the last ten minutes.
prune_clears-fresh :
    (now sent_at : ℕ) (key : String × String) (d : Dict (String × String) ℕ)
    → Distinct d
    → now ≤ sent_at + deleted_ttl_ms
    → cleared_since (Dict.get key (prune_clears now d)) sent_at
      ≡ cleared_since (Dict.get key d) sent_at
unfolding prune_clears
prune_clears-fresh now sent_at key d u fresh = elim (Bool-cases (ltb max_deleted (length d))) [
  | inl large ↦
      rw (large, get-keep (λ v. leb now (v + deleted_ttl_ms)) key d u) (kept (Dict.get key d))
  | inr small ↦ rw small refl
]
  where
    kept :
        (o : Option ℕ)
        → cleared_since (only (λ v. leb now (v + deleted_ttl_ms)) o) sent_at
          ≡ cleared_since o sent_at
    kept none = refl
    kept (some v) = ground (arith, fresh)

-- A clear of a chatter's messages invalidates exactly the ones that they sent in the channel up to it,
-- on top of what was invalid, for a message that is at most ten minutes old.
pub record_removal-user_cleared :
    (ix : ModerationIndex) (now at sent_at : ℕ) (channel_id channel_id' user_id user_id' : String)
    (message_id : Option String)
    → Distinct ix.user_clears
    → user_id' ≢ ""
    → now ≤ sent_at + deleted_ttl_ms
    → is_invalidated
        (record_removal ix now (user_messages_cleared channel_id user_id at))
        channel_id'
        message_id
        (some user_id')
        sent_at
      ≡ (is_invalidated ix channel_id' message_id (some user_id') sent_at
          || ((channel_id == channel_id') && (user_id == user_id') && leb sent_at at))
unfolding is_invalidated record_removal was_deleted user_cleared
record_removal-user_cleared ix now at sent_at c c' u u' message_id d named fresh =
    let old = max (or_default (Dict.get (c, u) ix.user_clears) 0) at in
    ground (
      arith,
      eq_iff u' "",
      prune_clears-fresh now sent_at (c', u') (Dict.put (c, u) old ix.user_clears)
          (Distinct-put (c, u) old ix.user_clears d) fresh,
      cleared_since-put (c, u) (c', u') at sent_at ix.user_clears,
    )

-- What every recording keeps: each cleared chatter stands once, and the deleted messages within the cap.
pub record IsValid (ix : ModerationIndex) : Type 0 where
  pub clears : Distinct ix.user_clears
  pub bounded : length ix.deleted ≤ max_deleted

prune_clears-Distinct :
    (now : ℕ) (d : Dict (String × String) ℕ) → Distinct d → Distinct (prune_clears now d)
unfolding prune_clears
prune_clears-Distinct now d u = elim (Bool-cases (ltb max_deleted (length d))) [
  | inl large ↦ rw large (Distinct-keep (λ v. leb now (v + deleted_ttl_ms)) d u)
  | inr small ↦ rw small u
]

-- Every recording keeps the index valid.
pub record_removal-IsValid :
    (ix : ModerationIndex) (now : ℕ) (event : Removal)
    → IsValid ix
    → IsValid (record_removal ix now event)
unfolding record_removal
record_removal-IsValid ix now (message_deleted c m at) v = record {
  clears = v.clears;
  bounded = prune-length now (put_last m now ix.deleted);
}
record_removal-IsValid ix now (user_messages_cleared c u at) v = record {
  clears = prune_clears-Distinct now _ (Distinct-put (c, u) _ ix.user_clears v.clears);
  bounded = v.bounded;
}
record_removal-IsValid ix now (chat_cleared c at) v = record {
  clears = v.clears;
  bounded = v.bounded;
}
