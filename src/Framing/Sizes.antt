-- ===== src/Framing/Sizes.antt =====
-- The size at the front of a frame.
use cpe400_peer_2_peer_file.Base.{
  ℕ, zero, suc, ◌*◌, ◌/◌, ◌^◌, ◌<◌, [], ◌∷◌, ◌++◌, ◌≡◌, refl, ap, ◌∙◌, length, take, drop, arith,
}
use cpe400_peer_2_peer_file.Text.{Text}
use cpe400_peer_2_peer_file.Framing.{number_bytes, bytes_number, frame}

power : ℕ → ℕ
power zero = 1
power (suc k) = 256 * power k

bytes_number-number_bytes : (k n : ℕ) → n < power k → bytes_number (number_bytes k n) ≡ n
unfolding number_bytes bytes_number power
bytes_number-number_bytes zero n h = omega (arith, h)
bytes_number-number_bytes (suc k) n h =
    omega (arith, bytes_number-number_bytes k (n / 256) (omega (arith, h)))

pub length-number_bytes : (k n : ℕ) → length (number_bytes k n) ≡ k
unfolding number_bytes
length-number_bytes zero n = refl
length-number_bytes (suc k) n = ap suc (length-number_bytes k (n / 256))

pub take-append : (xs ys : Text) (n : ℕ) → length xs ≡ n → take n (xs ++ ys) ≡ xs
take-append [] ys zero h = refl
take-append [] ys (suc n) h = absurd (omega (arith, h))
take-append (x ∷ xs) ys zero h = absurd (omega (arith, h))
take-append (x ∷ xs) ys (suc n) h = ap (◌∷◌ x) (take-append xs ys n (omega (arith, h)))

pub drop-append : (xs ys : Text) (n : ℕ) → length xs ≡ n → drop n (xs ++ ys) ≡ ys
drop-append [] ys zero h = refl
drop-append [] ys (suc n) h = absurd (omega (arith, h))
drop-append (x ∷ xs) ys zero h = absurd (omega (arith, h))
drop-append (x ∷ xs) ys (suc n) h = drop-append xs ys n (omega (arith, h))

pub bytes_number-size :
    (data' : Text)
    → length data' < 2 ^ 64
    → bytes_number (number_bytes 8 (length data')) ≡ length data'
unfolding power
bytes_number-size data' h = bytes_number-number_bytes 8 (length data') h

-- The first eight bytes of a frame are read as the size of the data, if that is below 2 ^ 64, and the
-- data follows them.
bytes_number-frame :
    (data' : Text)
    → length data' < 2 ^ 64
    → (bytes_number (take 8 (frame data')) ≡ length data') × (drop 8 (frame data') ≡ data')
unfolding frame power
bytes_number-frame data' h = (
  ap bytes_number
        (take-append (number_bytes 8 (length data')) data' 8 (length-number_bytes 8 (length data')))
      ∙ bytes_number-number_bytes 8 (length data') h,
  drop-append (number_bytes 8 (length data')) data' 8 (length-number_bytes 8 (length data')),
)
