-- ===== src/Runtime/Ops/Positions.antt =====
-- Positions in a list, from the front and from the end.
use doomtp_bot.Prelude.{ℕ, zero, suc, ◌-◌, ◌≤◌, ◌<◌, ◌≡◌, refl, some, arith}
use doomtp_bot.Prelude.Int.{pos, negsuc}
use doomtp_bot.Runtime.Values.{Value, missing, Items, nil, cons, length_of, item_at}
use doomtp_bot.Runtime.Ops.{at_position}

-- A position in range holds a value.
pub item_at-some : (xs : Items) (i : ℕ) → i < length_of xs → (v : Value) × (item_at xs i ≡ some v)
unfolding item_at length_of
item_at-some nil i h = absurd (omega arith)
item_at-some (cons v xs) zero h = (v, refl)
item_at-some (cons v xs) (suc i) h = item_at-some xs i (omega arith)

-- `x[-k]` is `x[len - k]`, for every k from 1 to the length.
pub at_position_from_end :
    (xs : Items) (i : ℕ)
    → i < length_of xs
    → at_position xs (negsuc i) ≡ at_position xs (pos (length_of xs - suc i))
unfolding at_position
at_position_from_end xs i h = ground (arith, h)

-- Out of range at either end there is nothing.
pub at_position_out :
    (xs : Items) (i : ℕ)
    → length_of xs ≤ i
    → (at_position xs (pos i) ≡ missing) × (at_position xs (negsuc i) ≡ missing)
unfolding at_position
at_position_out xs i h = ground (arith, h)
