-- ===== src/Triggers/Service/Scope.antt =====
-- Where a pack's triggers apply (ADR-0029).
use doomtp_bot.Prelude.{
  String, ◌≡◌, refl, true, ◌&&◌, List, [], ◌∷◌, arith, All, keep, map, Bool-cases, inl, inr,
}
use doomtp_bot.Triggers.Service.{Trigger, TriggerService, published, pack_on, placed, packs_in}

-- A trigger stands for this channel, where its pack is published and its module is on.
abbrev pub Applies : TriggerService → String → Trigger → Type 0
Applies s channel_id t =
    (t.channel_id ≡ channel_id)
    × (published s channel_id t ≡ true)
    × (pack_on s channel_id t ≡ true)

placed-Applies :
    (s : TriggerService) (channel_id : String) (ts : List Trigger)
    → All (Applies s channel_id) (
        map (placed channel_id) (keep (λ t. published s channel_id t && pack_on s channel_id t) ts))
placed-Applies s channel_id [] = tt
placed-Applies s channel_id (t ∷ ts) =
    elim (Bool-cases (published s channel_id t && pack_on s channel_id t)) [
      | inl applies ↦
          rw (applies, keep, map, All)
            (
              (refl, ground (arith, applies), ground (arith, applies)),
              placed-Applies s channel_id ts,
            )
      | inr not_here ↦ rw (not_here, keep) (placed-Applies s channel_id ts)
    ]

-- Each pack trigger that a channel is handed carries the channel's id, its pack is published there or
-- everywhere, and its module is on there.
pub packs_in-Applies :
    (s : TriggerService) (channel_id : String) → All (Applies s channel_id) (packs_in s channel_id)
unfolding packs_in
packs_in-Applies s channel_id = placed-Applies s channel_id s.pack_list
