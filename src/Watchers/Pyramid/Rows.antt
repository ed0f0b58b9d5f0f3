-- ===== src/Watchers/Pyramid/Rows.antt =====
-- `row_of` reads back a row as it is typed.
use doomtp_bot.Prelude.{
  ℕ, zero, suc, ◌≡◌, ◌≢◌, refl, ap, true, false, not, some, List, [], ◌∷◌, ◌++◌, arith, Text, join,
  IsWord, split-join, list_beq, Bool-cases, inl, inr, ◌==◌, nat_eq, list_eq, list_beq_iff, keep,
  all, All, length, beq_refl,
}
use doomtp_bot.Watchers.Pyramid.{is_invisible, row_of, row_of_tokens, selector, Row}

-- n times the same token
unfoldable pub repeated : ℕ → Text → List Text
repeated zero t = []
repeated (suc n) t = t ∷ repeated n t

-- A word that chat clients put nothing invisible into, and that is no lone variation selector.
pub record IsToken (t : Text) : Type 0 where
  pub word : IsWord t
  pub visible : All (λ c. is_invisible c ≡ false) t
  pub proper : t ≢ selector

keep-visible :
    (t : Text) → All (λ c. is_invisible c ≡ false) t → keep (λ c. not (is_invisible c)) t ≡ t
keep-visible [] h = refl
keep-visible (c ∷ t) h = rw (h.0, keep) (ap (λ r. c ∷ r) (keep-visible t h.1))

visible-append :
    (s t : Text)
    → All (λ c. is_invisible c ≡ false) s
    → All (λ c. is_invisible c ≡ false) t
    → All (λ c. is_invisible c ≡ false) (s ++ t)
visible-append [] t p q = q
visible-append (c ∷ s) t p q = (p.0, visible-append s t p.1 q)

visible-join :
    (n : ℕ) (t : Text)
    → All (λ c. is_invisible c ≡ false) t
    → All (λ c. is_invisible c ≡ false) (join (repeated n t))
unfolding join repeated is_invisible
visible-join zero t v = tt
visible-join (suc zero) t v = v
visible-join (suc (suc n)) t v = visible-append t _ v (refl, visible-join (suc n) t v)

words-repeated : (n : ℕ) (t : Text) → IsWord t → All IsWord (repeated n t)
unfolding repeated
words-repeated zero t w = tt
words-repeated (suc n) t w = (w, words-repeated n t w)

keep-proper :
    (n : ℕ) (t : Text)
    → t ≢ selector
    → keep (λ x. not (x == selector)) (repeated n t) ≡ repeated n t
unfolding repeated
keep-proper zero t h = refl
keep-proper (suc n) t h =
    let other : list_beq nat_eq t selector ≡ false =
      ground (arith, list_beq_iff nat_eq t selector) in
    rw (other, keep) (ap (λ r. t ∷ r) (keep-proper n t h))

all-repeated : (n : ℕ) (t : Text) → all (λ x. x == t) (repeated n t) ≡ true
unfolding repeated
all-repeated zero t = refl
all-repeated (suc n) t = rw (beq_refl t, all) (all-repeated n t)

length-repeated : (n : ℕ) (t : Text) → length (repeated n t) ≡ n
unfolding repeated
length-repeated zero t = refl
length-repeated (suc n) t = ap suc (length-repeated n t)

-- A token typed n + 1 times with single spaces between is the row of that token with that count.
pub row_of-join :
    (n : ℕ) (t : Text)
    → IsToken t
    → row_of (join (repeated (suc n) t)) ≡ some (record { token = t; count = suc n })
unfolding row_of row_of_tokens
row_of-join n t h =
    rw
      (
        keep-visible (join (repeated (suc n) t)) (visible-join (suc n) t h.visible),
        split-join (repeated (suc n) t) (words-repeated (suc n) t h.word),
        keep-proper (suc n) t h.proper,
      )
      (unfold repeated in rw (all-repeated n t, length-repeated n t))

repeated-of_all :
    (t : Text) (ts : List Text) → all (λ x. x == t) ts ≡ true → ts ≡ repeated (length ts) t
unfolding repeated
repeated-of_all t [] h = refl
repeated-of_all t (x ∷ ts) h =
    let same : list_beq nat_eq x t ≡ true = ground arith in
    let e : x ≡ t = (list_beq_iff nat_eq x t).0 same in cc (e, repeated-of_all t ts (ground arith))

-- Tokens that make a row are the row's token, each of them, and there is one at least.
pub row_of_tokens-repeated :
    (ts : List Text) (r : Row)
    → row_of_tokens ts ≡ some r
    → (ts ≡ repeated r.count r.token) × (r.count ≢ 0)
unfolding row_of_tokens
row_of_tokens-repeated [] r h = cc
row_of_tokens-repeated (t ∷ ts) r h = elim (Bool-cases (all (λ x. x == t) ts)) [
  | inl equal ↦
      let e : r ≡ record { token = t; count = length (t ∷ ts) } = ground arith in
      rw e (unfold repeated in ap (λ l. t ∷ l) (repeated-of_all t ts equal), omega arith)
  | inr mixed ↦ absurd (ground arith)
]
