-- ===== src/Watchers/Pyramid/Climb.antt =====
-- A whole pyramid, from its first row up and down again.
use doomtp_bot.Prelude.{
  ℕ, zero, suc, ◌+◌, ◌≤◌, String, ◌≡◌, refl, sym, ap, ◌∙◌, true, false, none, some, List, [], ◌∷◌,
  ◌++◌, arith, Text, nat_eq, string_eq, list_eq, list_beq_iff, eq_iff,
}
use doomtp_bot.Prelude.Dict
use doomtp_bot.Prelude.Dict.{get-put_self, get-remove_self}
use doomtp_bot.Core.Events.{ChatMessage}
use doomtp_bot.Watchers.Pyramid.{
  Open, Pyramid, WatchEvent, climb, advance, observe_row, observe, candidate, row_of, same_row,
  event, start, step, complete, up, down, nowhere,
}
use doomtp_bot.Watchers.Pyramid.Shape.{observe_all}

-- A line by one chatter in one channel that is a row of a token.
pub record IsRow (c u : String) (token : Text) (n : ℕ) (msg : ChatMessage) : Type 0 where
  pub channel : msg.channel_id ≡ c
  pub chatter : msg.user_id ≡ u
  pub row : row_of msg.text ≡ some (record { token = token; count = n })

-- The lines are rows with these counts, one by one.
abbrev pub Rows : String → String → Text → List ℕ → List ChatMessage → Type 0
Rows c u token [] [] = Unit
Rows c u token (n ∷ ns) (msg ∷ msgs) = IsRow c u token n msg × Rows c u token ns msgs
Rows c u token _ _ = ⊥

-- n rows, each one wider than the one before it, above width w
unfoldable pub above : ℕ → ℕ → List ℕ
above w zero = []
above w (suc n) = (w + 1) ∷ above (w + 1) n

-- n, n - 1, …, 1
unfoldable pub below : ℕ → List ℕ
below zero = []
below (suc n) = suc n ∷ below n

abbrev pub widened : Pyramid → Pyramid
widened p = record p { width = p.width + 1; peak = p.width + 1 }

abbrev pub narrowed : Pyramid → ℕ → Pyramid
narrowed p n = record p { width = n; falling = true }

abbrev pub at_width : Pyramid → ℕ → Pyramid
at_width p n = record p { width = n; peak = n }

at_width_self : (p : Pyramid) → p.peak ≡ p.width → p ≡ at_width p (p.width + 0)
at_width_self p top = ground arith

unfoldable pub ups : Pyramid → ℕ → List WatchEvent
ups p zero = []
ups p (suc n) = event (widened p) step up ∷ ups (widened p) n

unfoldable pub downs : Pyramid → ℕ → List WatchEvent
downs p zero = []
downs p (suc zero) = event (narrowed p 1) complete nowhere ∷ []
downs p (suc (suc n)) =
    event (narrowed p (suc (suc n))) step down ∷ downs (narrowed p (suc (suc n))) (suc n)

same_row-row :
    (p : Pyramid) (n : ℕ) (msg : ChatMessage) (token : Text)
    → msg.user_id ≡ p.builder.id
    → p.token ≡ token
    → same_row msg p (some (record { token = token; count = n })) ≡ some n
unfolding same_row
same_row-row p n msg token built spelt =
    ground (arith, eq_iff msg.user_id p.builder.id, list_beq_iff nat_eq token p.token)

-- A row of an open pyramid is a step of it.
observe-row :
    (opened : Open) (p : Pyramid) (n : ℕ) (msg : ChatMessage) (c u : String) (token : Text)
    → IsRow c u token n msg
    → Dict.get c opened ≡ some p
    → p.builder.id ≡ u
    → p.token ≡ token
    → observe opened msg ≡ climb opened msg p (some (record { token = token; count = n })) n
unfolding observe observe_row advance
observe-row opened p n msg c u token r found built spelt =
    let here : Dict.get msg.channel_id opened ≡ some p = rw r.channel found in
    rw (r.row, here, same_row-row p n msg token (r.chatter ∙ sym built) spelt)

-- The next wider row of a pyramid that is not falling.
observe-up :
    (opened : Open) (p : Pyramid) (msg : ChatMessage) (c u : String) (token : Text)
    → IsRow c u token (p.width + 1) msg
    → Dict.get c opened ≡ some p
    → p.builder.id ≡ u
    → p.token ≡ token
    → p.falling ≡ false
    → observe opened msg ≡ (Dict.put c (widened p) opened, event (widened p) step up ∷ [])
unfolding climb
observe-up opened p msg c u token r found built spelt rising =
    observe-row opened p (p.width + 1) msg c u token r found built spelt ∙ ground (arith, r.channel)

-- The next narrower row of a pyramid that has a second row.
observe-down :
    (opened : Open) (p : Pyramid) (n : ℕ) (msg : ChatMessage) (c u : String) (token : Text)
    → IsRow c u token (suc (suc n)) msg
    → Dict.get c opened ≡ some p
    → p.builder.id ≡ u
    → p.token ≡ token
    → 2 ≤ p.peak
    → p.width ≡ suc (suc (suc n))
    → observe opened msg ≡ (
      Dict.put c (narrowed p (suc (suc n))) opened,
      event (narrowed p (suc (suc n))) step down ∷ [],
    )
unfolding climb
observe-down opened p n msg c u token r found built spelt wide width =
    observe-row opened p (suc (suc n)) msg c u token r found built spelt ∙ ground (arith, r.channel)

-- The last row.
observe-last :
    (opened : Open) (p : Pyramid) (msg : ChatMessage) (c u : String) (token : Text)
    → IsRow c u token 1 msg
    → Dict.get c opened ≡ some p
    → p.builder.id ≡ u
    → p.token ≡ token
    → 2 ≤ p.peak
    → p.width ≡ 2
    → observe opened msg ≡ (Dict.remove c opened, event (narrowed p 1) complete nowhere ∷ [])
unfolding climb
observe-last opened p msg c u token r found built spelt wide width =
    observe-row opened p 1 msg c u token r found built spelt ∙ ground (arith, r.channel)

module _ (c u : String) (token : Text) where
  down_run :
      (n : ℕ) (opened : Open) (p : Pyramid) (msgs : List ChatMessage)
      → Rows c u token (below (suc n)) msgs
      → Dict.get c opened ≡ some p
      → p.builder.id ≡ u
      → p.token ≡ token
      → 2 ≤ p.peak
      → p.width ≡ suc (suc n)
      → ((observe_all opened msgs).1 ≡ downs p (suc n))
        × (Dict.get c (observe_all opened msgs).0 ≡ none)
  unfolding below downs observe_all
  down_run n opened p [] r found built spelt wide width = absurd r
  down_run zero opened p (msg ∷ []) r found built spelt wide width =
      rw (observe-last opened p msg c u token r.0 found built spelt wide width)
        (refl, get-remove_self c opened)
  down_run zero opened p (msg ∷ next ∷ msgs) r found built spelt wide width = absurd r.1
  down_run (suc n) opened p (msg ∷ msgs) r found built spelt wide width =
      let p' = narrowed p (suc (suc n)) in
      let ih =
        down_run n (Dict.put c p' opened) p' msgs r.1 (get-put_self c p' opened) built spelt wide
          refl in
      rw (observe-down opened p n msg c u token r.0 found built spelt wide width)
        (ap (λ es. event p' step down ∷ es) ih.0, ih.1)

  -- The rows up, then whatever follows from the pyramid that they leave.
  up_run :
      (n : ℕ) (opened : Open) (p : Pyramid) (msgs rest : List ChatMessage)
      → Rows c u token (above p.width n) msgs
      → Dict.get c opened ≡ some p
      → p.builder.id ≡ u
      → p.token ≡ token
      → p.falling ≡ false
      → p.peak ≡ p.width
      → (last : Open) × (q : Pyramid) × (observe_all opened (msgs ++ rest)
          ≡ ((observe_all last rest).0, ups p n ++ (observe_all last rest).1))
        × (Dict.get c last ≡ some q)
        × (q ≡ at_width p (p.width + n))
  unfolding above ups observe_all
  up_run zero opened p [] rest r found built spelt rising top =
      (opened, p, refl, found, at_width_self p top)
  up_run zero opened p (msg ∷ msgs) rest r found built spelt rising top = absurd r
  up_run (suc n) opened p [] rest r found built spelt rising top = absurd r
  up_run (suc n) opened p (msg ∷ msgs) rest r found built spelt rising top =
      let p' = widened p in
      let (last, q, run, kept, shape) =
        up_run n (Dict.put c p' opened) p' msgs rest r.1 (get-put_self c p' opened) built spelt
          rising refl in
      (
        last,
        q,
        rw (observe-up opened p msg c u token r.0 found built spelt rising, run),
        kept,
        shape ∙ ap (at_width p) (omega arith),
      )

  observe-first :
      (opened : Open) (msg : ChatMessage)
      → Dict.get c opened ≡ none
      → msg.is_self ≡ false
      → IsRow c u token 1 msg
      → observe opened msg ≡ (Dict.put c (candidate msg token) opened, [])
  unfolding observe observe_row start
  observe-first opened msg fresh human r =
      let here : Dict.get msg.channel_id opened ≡ none = rw r.channel fresh in
      rw (r.row, here) (ground (arith, r.channel))

  -- A chatter's whole pyramid is reported row by row, and its end by one `complete`: first the rows
  -- up to the width n + 2, then the rows down, and afterwards nothing is open in the channel.
  pub observe_all-pyramid :
      (n : ℕ) (opened : Open) (first : ChatMessage) (rising sinking : List ChatMessage)
      → Dict.get c opened ≡ none
      → first.is_self ≡ false
      → IsRow c u token 1 first
      → Rows c u token (above 1 (suc n)) rising
      → Rows c u token (below (suc n)) sinking
      → ((observe_all opened (first ∷ rising ++ sinking)).1
          ≡ ups (candidate first token) (suc n)
            ++ downs (at_width (candidate first token) (suc (suc n))) (suc n))
        × (Dict.get c (observe_all opened (first ∷ rising ++ sinking)).0 ≡ none)
  unfolding observe_all candidate
  observe_all-pyramid n opened first rising sinking fresh human r1 up_rows down_rows =
      let p = candidate first token in
      let opened' = Dict.put c p opened in
      let (last, q, run, kept, shape) =
        up_run (suc n) opened' p rising sinking up_rows (get-put_self c p opened) r1.chatter refl
          refl refl in
      let q' = at_width p (suc (suc n)) in
      let kept' : Dict.get c last ≡ some q' =
        kept ∙ ap some (shape ∙ ap (at_width p) (omega arith)) in
      let fall = down_run n last q' sinking down_rows kept' r1.chatter refl (omega arith) refl in
      let whole : observe_all opened (first ∷ rising ++ sinking)
          ≡ ((observe_all last sinking).0, ups p (suc n) ++ (observe_all last sinking).1) =
        rw (observe-first opened first fresh human r1) run in
      (
        ap (λ r. r.1) whole ∙ ap (λ es. ups p (suc n) ++ es) fall.0,
        ap (λ r. Dict.get c r.0) whole ∙ fall.1,
      )
