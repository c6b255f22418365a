-- ===== src/Framing/Pieces.antt =====
-- Texts that arrive in pieces and are stored in a buffer.
use cpe400_peer_2_peer_file.Base.{
  ℕ, zero, suc, ◌+◌, ◌-◌, ◌≤◌, min, [], ◌∷◌, ◌++◌, ◌≡◌, refl, sym, ap, ◌∙◌, length, take, drop,
  length-append, append_assoc, arith,
}
use cpe400_peer_2_peer_file.Text.{Text}
use cpe400_peer_2_peer_file.Framing.{resize, replicate, store_at}
use cpe400_peer_2_peer_file.Framing.Sizes.{take-append, drop-append}

pub take-drop : (n : ℕ) (s : Text) → take n s ++ drop (length (take n s)) s ≡ s
take-drop zero [] = refl
take-drop zero (c ∷ s) = refl
take-drop (suc n) [] = refl
take-drop (suc n) (c ∷ s) = ap (◌∷◌ c) (take-drop n s)

pub length-take : (n : ℕ) (s : Text) → length (take n s) ≡ min n (length s)
length-take zero [] = refl
length-take zero (c ∷ s) = omega arith
length-take (suc n) [] = omega arith
length-take (suc n) (c ∷ s) = omega (arith, length-take n s)

pub length-drop : (n : ℕ) (s : Text) → length (drop n s) ≡ length s - n
length-drop zero [] = refl
length-drop zero (c ∷ s) = omega arith
length-drop (suc n) [] = omega arith
length-drop (suc n) (c ∷ s) = omega (arith, length-drop n s)

length-replicate : (n b : ℕ) → length (replicate n b) ≡ n
length-replicate zero b = refl
length-replicate (suc n) b = ap suc (length-replicate n b)

pub length-resize : (n : ℕ) (b : Text) → length (resize n b) ≡ n
unfolding resize
length-resize n b = omega (
  arith,
  length-append (take n b) (replicate (n - length b) 0),
  length-take n b,
  length-replicate (n - length b) 0,
)

pub append_cancel :
    (xs xs' ys ys' : Text)
    → length xs ≡ length xs'
    → xs ++ ys ≡ xs' ++ ys'
    → (xs ≡ xs') × (ys ≡ ys')
append_cancel xs xs' ys ys' same e = (
  sym (take-append xs ys (length xs) refl)
      ∙ ap (take (length xs)) e
      ∙ take-append xs' ys' (length xs) (sym same),
  sym (drop-append xs ys (length xs) refl)
      ∙ ap (drop (length xs)) e
      ∙ drop-append xs' ys' (length xs) (sym same),
)

length-kept :
    (pos : ℕ) (new buffer : Text)
    → pos + length new ≤ length buffer
    → length (take pos buffer ++ new) ≡ pos + length new
length-kept pos new buffer fits =
    omega (arith, length-append (take pos buffer) new, length-take pos buffer)

-- What is stored at the end of what the buffer holds, if it has room.
pub take-store_at :
    (pos : ℕ) (new buffer : Text)
    → pos + length new ≤ length buffer
    → take (pos + length new) (store_at pos new buffer) ≡ take pos buffer ++ new
take-store_at pos new buffer fits =
    ap (take (pos + length new))
      (sym (append_assoc (take pos buffer) new (drop (pos + length new) buffer)))
    ∙ take-append (take pos buffer ++ new) (drop (pos + length new) buffer) (pos + length new)
        (length-kept pos new buffer fits)

pub length-store_at :
    (pos : ℕ) (new buffer : Text)
    → pos + length new ≤ length buffer
    → length (store_at pos new buffer) ≡ length buffer
length-store_at pos new buffer fits = omega (
  arith,
  length-append (take pos buffer) (new ++ drop (pos + length new) buffer),
  length-append new (drop (pos + length new) buffer),
  length-take pos buffer,
  length-drop (pos + length new) buffer,
)
