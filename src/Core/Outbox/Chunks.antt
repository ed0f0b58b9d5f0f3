-- ===== src/Core/Outbox/Chunks.antt =====
-- The bounds of the chunks that a reply is cut into.
use doomtp_bot.Prelude.{
  rstrip, some, false, ℕ, zero, suc, ◌-◌, ◌≤◌, ◌≡◌, refl, List, [], ◌∷◌, ◌++◌, Text, arith, ltb,
  length, take, drop, All, split, length-append, length-take, length-drop, Bool-cases, inl, inr,
}
use doomtp_bot.Core.Outbox.{
  words_of, flush, cut_word, candidate, add_word, chunk_word, chunk_words, end_cut, limited, chunk,
  ellipsis,
}

-- Each text fits a chunk of the size.
abbrev pub Fits : ℕ → List Text → Type 0
Fits size = All (λ c. length c ≤ size)

Fits-append : (size : ℕ) (xs ys : List Text) → Fits size xs → Fits size ys → Fits size (xs ++ ys)
Fits-append size [] ys f g = g
Fits-append size (x ∷ xs) ys f g = (f.0, Fits-append size xs ys f.1 g)

Fits-take : (size n : ℕ) (xs : List Text) → Fits size xs → Fits size (take n xs)
Fits-take size zero xs f = tt
Fits-take size (suc n) [] f = tt
Fits-take size (suc n) (x ∷ xs) f = (f.0, Fits-take size n xs f.1)

flush-Fits :
    (size : ℕ) (chunks : List Text) (current : Text)
    → Fits size chunks
    → length current ≤ size
    → Fits size (flush chunks current)
unfolding flush
flush-Fits size chunks [] f short = f
flush-Fits size chunks (c ∷ cs) f short = Fits-append size chunks ((c ∷ cs) ∷ []) f (short, tt)

-- With the word's length as fuel, the cut ends with a rest that fits.
cut_word-Fits :
    (size fuel : ℕ) (word : Text)
    → 1 ≤ size
    → length word ≤ fuel
    → Fits size (cut_word size fuel word).0 × (length (cut_word size fuel word).1 ≤ size)
unfolding cut_word
cut_word-Fits size zero word one enough = (tt, omega (arith, enough))
cut_word-Fits size (suc fuel) word one enough = elim (Bool-cases (ltb size (length word))) [
  | inl long ↦
      let ih =
        cut_word-Fits size fuel (drop size word) one
          (ground (arith, length-drop size word, enough, one)) in
      rw long ((ground (arith, length-take size word), ih.0), ih.1)
  | inr short ↦ rw short (tt, ground (arith, short))
]

add_word-Fits :
    (size : ℕ) (chunks : List Text) (current word : Text)
    → Fits size chunks
    → length current ≤ size
    → length word ≤ size
    → Fits size (add_word size chunks current word).0
      × (length (add_word size chunks current word).1 ≤ size)
unfolding add_word
add_word-Fits size chunks current word f short fits =
    elim (Bool-cases (ltb size (length (candidate current word)))) [
      | inl long ↦ rw long (Fits-append size chunks (current ∷ []) f (short, tt), fits)
      | inr room ↦ rw room (f, ground (arith, room))
    ]

chunk_word-Fits :
    (size : ℕ) (chunks : List Text) (current word : Text)
    → 1 ≤ size
    → Fits size chunks
    → length current ≤ size
    → Fits size (chunk_word size chunks current word).0
      × (length (chunk_word size chunks current word).1 ≤ size)
unfolding chunk_word
chunk_word-Fits size chunks current word one f short =
    let cut = cut_word-Fits size (length word) word one (omega arith) in
    let pieces = (cut_word size (length word) word).0 in
    elim (Bool-cases (ltb size (length word))) [
      | inl long ↦ rw long (
          add_word-Fits size (flush chunks current ++ pieces) []
            (cut_word size (length word) word).1
            (Fits-append size (flush chunks current) pieces (flush-Fits size chunks current f short)
              cut.0)
            (omega arith) cut.1)
      | inr room ↦ rw room (add_word-Fits size chunks current word f short (ground (arith, room)))
    ]

chunk_words-Fits :
    (size : ℕ) (chunks : List Text) (current : Text) (words : List Text)
    → 1 ≤ size
    → Fits size chunks
    → length current ≤ size
    → Fits size (chunk_words size chunks current words).0
      × (length (chunk_words size chunks current words).1 ≤ size)
unfolding chunk_words
chunk_words-Fits size chunks current [] one f short = (f, short)
chunk_words-Fits size chunks current (word ∷ words) one f short =
    let next = chunk_word-Fits size chunks current word one f short in
    chunk_words-Fits size (chunk_word size chunks current word).0
      (chunk_word size chunks current word).1 words one next.0 next.1

length-rstrip : (text : Text) → length (rstrip text) ≤ length text
unfolding rstrip
length-rstrip [] = omega arith
length-rstrip (c ∷ cs) = ground (arith, length-rstrip cs)

end_cut-Fits :
    (size : ℕ) (c : Text) (cs : List Text)
    → 1 ≤ size
    → Fits size (c ∷ cs)
    → (chunks : List Text) × (end_cut size (c ∷ cs) ≡ some chunks)
      × Fits size chunks
      × (length chunks ≡ length (c ∷ cs))
unfolding end_cut
end_cut-Fits size c [] one f = (
  (rstrip (take (size - 1) c) ++ ellipsis) ∷ [],
  refl,
  (
    ground (
      arith,
      length-append (rstrip (take (size - 1) c)) ellipsis,
      length-rstrip (take (size - 1) c),
      length-take (size - 1) c,
      one,
    ),
    tt,
  ),
  refl,
)
end_cut-Fits size c (d ∷ cs) one f =
    let (rest, made, fits, long) = end_cut-Fits size d cs one f.1 in
    (c ∷ rest, (rw made refl), (f.0, fits), ground (arith, long))

limited-Fits :
    (size limit : ℕ) (chunks : List Text)
    → 1 ≤ size
    → 1 ≤ limit
    → Fits size chunks
    → (cut : List Text) × (limited size limit chunks ≡ some cut)
      × Fits size cut
      × (length cut ≤ limit)
unfolding limited
limited-Fits size zero chunks one some_limit f = absurd (omega (arith, some_limit))
limited-Fits size (suc limit) [] one some_limit f =
    let within : ltb (suc limit) 0 ≡ false = ground arith in ([], (rw within refl), tt, omega arith)
limited-Fits size (suc limit) (c ∷ cs) one some_limit f =
    elim (Bool-cases (ltb (suc limit) (length (c ∷ cs)))) [
      | inl over ↦
          let (cut, made, fits, long) =
            end_cut-Fits size c (take limit cs) one (Fits-take size (suc limit) (c ∷ cs) f) in
          (cut, (rw over made), fits, ground (arith, long, length-take limit cs))
      | inr within ↦ (c ∷ cs, (rw within refl), f, ground (arith, within))
    ]

-- A text of any length is cut into chunks, at most `limit` of them, and no chunk is longer than the
-- size, for a size and a limit of 1 or more.
pub chunk-Fits :
    (size limit : ℕ) (text : Text)
    → 1 ≤ size
    → 1 ≤ limit
    → (chunks : List Text) × (chunk size limit text ≡ some chunks)
      × Fits size chunks
      × (length chunks ≤ limit)
unfolding chunk
chunk-Fits size limit text one some_limit =
    let fits = chunk_words-Fits size [] [] (words_of (split text)) one tt (omega arith) in
    let made = chunk_words size [] [] (words_of (split text)) in
    limited-Fits size limit (flush made.0 made.1) one some_limit
      (flush-Fits size made.0 made.1 fits.0 fits.1)
