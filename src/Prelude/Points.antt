-- ===== src/Prelude/Points.antt =====
-- The code points of a native text.
use Prim.Native.Nat.{ℕ}
use Prim.Native.Char.{code}
use Prim.Native.String.{String, [] as ended, ◌∷◌ as ◌followed_by◌}
use mathlib.Core.List.{List, [], ◌∷◌}

unfoldable pub points : String → List ℕ
points ended = []
points (c followed_by s) = code c ∷ points s
