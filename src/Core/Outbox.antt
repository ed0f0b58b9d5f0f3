-- ===== src/Core/Outbox.antt =====
-- core/outbox.py: how a reply is cut into chat messages (`chunk`). The loop that cuts an overlong word
-- runs on fuel, the length of the word, which is enough for a size of 1 or more; with a size of 0 the
-- Python loop does not end; with a limit of 0 it raises IndexError, which is none here. The sending itself waits on Twitch and is not modelled.
pub mod Chunks
mod Tests
use mathlib.Core.Option
use doomtp_bot.Prelude.{
  rstrip, ℕ, zero, suc, ◌+◌, ◌-◌, Bool, true, false, Option, none, some, List, [], ◌∷◌, ◌++◌, Text,
  ltb, length, take, drop, split, is_space, all, if◌then◌else◌,
}

abbrev pub max_chunk : ℕ
max_chunk = 500

abbrev pub max_chunks : ℕ
max_chunks = 2

-- `…`
abbrev pub ellipsis : Text
ellipsis = 8230 ∷ []

-- `" ".join(text.split()).split(" ")`, which is one empty word where there are none
unfoldable pub words_of : List Text → List Text
words_of [] = [] ∷ []
words_of (word ∷ words) = word ∷ words

-- `if current: chunks.append(current)`
unfoldable pub flush : List Text → Text → List Text
flush chunks [] = chunks
flush chunks (c ∷ cs) = chunks ++ ((c ∷ cs) ∷ [])

-- The passes of `while len(word) > size`: the chunks that they append, and the word that is left.
unfoldable pub cut_word : ℕ → ℕ → Text → List Text × Text
cut_word size zero word = ([], word)
cut_word size (suc fuel) word =
    let (pieces, rest) = cut_word size fuel (drop size word) in
    if ltb size (length word) then (take size word ∷ pieces, rest) else ([], word)

-- f"{current} {word}" if current else word
unfoldable pub candidate : Text → Text → Text
candidate [] word = word
candidate (c ∷ cs) word = (c ∷ cs) ++ (32 ∷ word)

unfoldable pub add_word : ℕ → List Text → Text → Text → List Text × Text
add_word size chunks current word =
    if ltb size (length (candidate current word))
    then (chunks ++ (current ∷ []), word)
    else (chunks, candidate current word)

-- One pass of the loop over the words.
unfoldable pub chunk_word : ℕ → List Text → Text → Text → List Text × Text
chunk_word size chunks current word =
    let (pieces, rest) = cut_word size (length word) word in
    if ltb size (length word)
    then add_word size (flush chunks current ++ pieces) [] rest
    else add_word size chunks current word

unfoldable pub chunk_words : ℕ → List Text → Text → List Text → List Text × Text
chunk_words size chunks current [] = (chunks, current)
chunk_words size chunks current (word ∷ words) =
    let (chunks', current') = chunk_word size chunks current word in
    chunk_words size chunks' current' words

-- chunks[-1] = chunks[-1][: size - 1].rstrip() + "…"; none is the IndexError of an empty list
unfoldable pub end_cut : ℕ → List Text → Option (List Text)
end_cut size [] = none
end_cut size (c ∷ []) = some ((rstrip (take (size - 1) c) ++ ellipsis) ∷ [])
end_cut size (c ∷ d ∷ cs) = Option.map (λ rest. c ∷ rest) (end_cut size (d ∷ cs))

unfoldable pub limited : ℕ → ℕ → List Text → Option (List Text)
limited size limit chunks =
    if ltb limit (length chunks) then end_cut size (take limit chunks) else some chunks

-- chunk
unfoldable pub chunk : ℕ → ℕ → Text → Option (List Text)
chunk size limit text =
    let (chunks, current) = chunk_words size [] [] (words_of (split text)) in
    limited size limit (flush chunks current)
