-- ===== src/Prelude/Words.antt =====
-- Text as a list of code points, with Python's `str.split()` and `" ".join`.
use Prim.Native.Nat.{ℕ}
use mathlib.Core.Path.{◌≡◌, refl, sym, ap, ◌∙◌}
use mathlib.Core.Bool.{Bool, true, false, ◌&&◌, ◌||◌}
use mathlib.Core.List.{List, [], ◌∷◌, ◌++◌}
use mathlib.Core.List.{append-nil, append_assoc}
use doomtp_bot.Prelude.Tests.{leb, eqb}
use doomtp_bot.Prelude.Lists.{All}

abbrev pub Text : Type 0
Text = List ℕ

-- The code points for which Python's `str.isspace` holds.
unfoldable pub is_space : ℕ → Bool
is_space c =
    (leb 9 c && leb c 13)
    || (leb 28 c && leb c 32)
    || eqb c 133
    || eqb c 160
    || eqb c 5760
    || (leb 8192 c && leb c 8202)
    || eqb c 8232
    || eqb c 8233
    || eqb c 8239
    || eqb c 8287
    || eqb c 12288

abbrev pub close_word : Text → List Text → List Text
close_word [] rest = rest
close_word (c ∷ word) rest = (c ∷ word) ∷ rest

unfoldable pub split_from : Text → Text → List Text
split_from word [] = close_word word []
split_from word (c ∷ cs) = elim (is_space c) [
  | true ↦ close_word word (split_from [] cs)
  | false ↦ split_from (word ++ c ∷ []) cs
]

-- text.split()
unfoldable pub split : Text → List Text
unfolding split_from
split text = split_from [] text

-- " ".join(words)
unfoldable pub join : List Text → Text
join [] = []
join (word ∷ []) = word
join (word ∷ next ∷ rest) = word ++ (32 ∷ join (next ∷ rest))

-- A word is not empty and holds no white space.
abbrev pub IsWord : Text → Type 0
IsWord [] = ⊥
IsWord (c ∷ cs) = All (λ x. is_space x ≡ false) (c ∷ cs)

abbrev NoSpace : Text → Type 0
NoSpace = All (λ x. is_space x ≡ false)

split_from-letter :
    (word : Text) (c : ℕ) (cs : Text)
    → is_space c ≡ false
    → split_from word (c ∷ cs) ≡ split_from (word ++ c ∷ []) cs
unfolding split_from
split_from-letter word c cs h = rw (h, split_from)

split_from-gap :
    (word : Text) (c : ℕ) (cs : Text)
    → is_space c ≡ true
    → split_from word (c ∷ cs) ≡ close_word word (split_from [] cs)
unfolding split_from
split_from-gap word c cs h = rw (h, split_from)

-- A stretch without white space is read into the word at hand.
split_from-append :
    (word cs rest : Text) → NoSpace cs → split_from word (cs ++ rest) ≡ split_from (word ++ cs) rest
split_from-append word [] rest h = simp append-nil
split_from-append word (c ∷ cs) rest h =
    split_from-letter word c (cs ++ rest) h.0
    ∙ split_from-append (word ++ c ∷ []) cs rest h.1
    ∙ ap (λ w. split_from w rest) (append_assoc word (c ∷ []) cs)

space_is_space : is_space 32 ≡ true
unfolding is_space
space_is_space = refl

-- A whole word before white space, or at the end, is read as one word.
split_from-space :
    (c : ℕ) (cs rest : Text)
    → NoSpace (c ∷ cs)
    → split_from [] ((c ∷ cs) ++ (32 ∷ rest)) ≡ (c ∷ cs) ∷ split_from [] rest
split_from-space c cs rest h =
    split_from-append [] (c ∷ cs) (32 ∷ rest) h ∙ split_from-gap (c ∷ cs) 32 rest space_is_space

split_from-end : (c : ℕ) (cs : Text) → NoSpace (c ∷ cs) → split_from [] (c ∷ cs) ≡ (c ∷ cs) ∷ []
unfolding split_from
split_from-end c cs h =
    ap (split_from []) (sym (append-nil (c ∷ cs))) ∙ split_from-append [] (c ∷ cs) [] h

-- Splitting joined words gives the words back.
pub split-join : (words : List Text) → All IsWord words → split (join words) ≡ words
unfolding split join
split-join [] h = unfold split_from in refl
split-join ([] ∷ rest) h = absurd h.0
split-join ((c ∷ cs) ∷ []) h = split_from-end c cs h.0
split-join ((c ∷ cs) ∷ next ∷ rest) h =
    split_from-space c cs (join (next ∷ rest)) h.0
    ∙ ap (λ r. (c ∷ cs) ∷ r) (split-join (next ∷ rest) h.1)
