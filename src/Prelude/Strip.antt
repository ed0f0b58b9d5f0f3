-- ===== src/Prelude/Strip.antt =====
-- str.strip, as removing what is white space at the two ends.
use mathlib.Core.List.{[], ◌∷◌}
use doomtp_bot.Prelude.Lists.{all}
use doomtp_bot.Prelude.Words.{Text, is_space}
use doomtp_bot.Prelude.Tests.{if◌then◌else◌}

unfoldable pub lstrip : Text → Text
lstrip [] = []
lstrip (c ∷ cs) = let rest = lstrip cs in if is_space c then rest else c ∷ cs

unfoldable pub rstrip : Text → Text
rstrip [] = []
rstrip (c ∷ cs) = let rest = rstrip cs in if all is_space (c ∷ cs) then [] else c ∷ rest

unfoldable pub strip : Text → Text
unfolding lstrip rstrip
strip text = rstrip (lstrip text)
