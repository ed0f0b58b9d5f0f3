-- ===== src/Core/Streams/Live.antt =====
-- What a poll leaves in the live set.
use doomtp_bot.Prelude.{
  contains-keep, ℕ, String, ◌≡◌, refl, not, ◌&&◌, ◌||◌, List, [], ◌∷◌, arith, map, contains,
  string_eq, eq_iff,
}
use doomtp_bot.Prelude.Dict
use doomtp_bot.Prelude.Dict.{Dict, get-put, get-remove}
use doomtp_bot.Core.Streams.{Streams, is_live, add_live, gone, drop_gone, apply}

is_live-add_live :
    (at : ℕ) (c : String) (streams found : Streams)
    → is_live (add_live at streams found).0 c ≡ (is_live streams c || is_live found c)
unfolding add_live is_live Dict.get
is_live-add_live at c streams [] = ground arith
is_live-add_live at c streams ((k, info) ∷ found) =
    ground (arith, is_live-add_live at c (Dict.put k info streams) found, get-put k c info streams)

is_live-drop_gone :
    (at : ℕ) (wanted : List String) (c : String) (streams : Streams) (ids : List String)
    → is_live (drop_gone at wanted streams ids).0 c ≡ (is_live streams c && not (contains c ids))
unfolding drop_gone is_live
is_live-drop_gone at wanted c streams [] = ground arith
is_live-drop_gone at wanted c streams (k ∷ ids) = ground (
  arith,
  is_live-drop_gone at wanted c (Dict.remove k streams) ids,
  get-remove k c streams,
  eq_iff k c,
)

contains-ids :
    (c : String) (streams : Streams) → contains c (map (λ e. e.0) streams) ≡ is_live streams c
unfolding is_live Dict.get
contains-ids c [] = refl
contains-ids c ((k, info) ∷ streams) = ground (arith, contains-ids c streams)

contains-gone :
    (found : Streams) (c : String) (streams : Streams)
    → contains c (gone found streams) ≡ (is_live streams c && not (is_live found c))
unfolding gone
contains-gone found c streams = ground (
  arith,
  contains-keep c (λ x. not (is_live found x)) (map (λ e. e.0) streams),
  contains-ids c streams,
)

-- After what Helix found is applied, exactly the channels that it found are live.
pub is_live-apply :
    (at : ℕ) (found : Streams) (wanted : List String) (streams : Streams) (c : String)
    → is_live (apply at found wanted streams).0 c ≡ is_live found c
unfolding apply
is_live-apply at found wanted streams c = ground (
  arith,
  is_live-add_live at c streams found,
  is_live-drop_gone at wanted c (add_live at streams found).0
      (gone found (add_live at streams found).0),
  contains-gone found c (add_live at streams found).0,
)
