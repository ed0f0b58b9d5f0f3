-- ===== src/Core/Outbox/Tests.antt =====
-- Small texts cut, and the bounds at one.
use doomtp_bot.Prelude.{
  rstrip, none, some, List, Text, ◌≤◌, ◌≡◌, refl, [], ◌∷◌, arith, length, points, split, split_from,
  is_space,
}
use doomtp_bot.Core.Outbox.{
  chunk, words_of, flush, cut_word, candidate, add_word, chunk_word, chunk_words, end_cut, limited,
}
use doomtp_bot.Core.Outbox.Chunks
use doomtp_bot.Core.Outbox.Chunks.{Fits}

program : Unit {0}
unfolding chunk words_of flush cut_word candidate add_word chunk_word chunk_words rstrip end_cut
    limited points split split_from is_space
program = tt

three_lines :
    chunk 5 3 (points "a bc  def gh") ≡ some (points "a bc" ∷ points "def" ∷ points "gh" ∷ [])
unfolding program
three_lines = refl

cut_off : chunk 5 2 (points "abcdefgh i j k") ≡ some (points "abcde" ∷ points "fgh…" ∷ [])
unfolding program
cut_off = refl

no_chunk : chunk 5 0 (points "a") ≡ none
unfolding program
no_chunk = refl

chunk-Fits_example :
    (chunks : List Text) × (chunk 5 2 (points "abcdefgh i j k") ≡ some chunks)
    × Fits 5 chunks
    × (length chunks ≤ 2)
chunk-Fits_example = Chunks.chunk-Fits 5 2 (points "abcdefgh i j k") (ground arith) (ground arith)
