-- ===== src/Text/Hash.antt =====
-- What the hash of a text can tell apart.
use mathlib.Core.Logic.{∥∥₁_elim}
use mathlib.Core.List.{Permᴰ}
use native.Mathlib.Nat.{ℕ_set}
use cpe400_peer_2_peer_file.Base.{ℕ, ◌+◌, ◌%◌, ◌<◌, ◌≡◌, refl, ◌∙◌, [], ◌∷◌, ◌++◌, Perm, arith}
use cpe400_peer_2_peer_file.Text.{Text, char_value, size_t_mod, hash_from, hash}

-- The sum that the loop takes modulo 2 ^ 64.
char_sum : Text → ℕ
char_sum [] = 0
char_sum (c ∷ str) = char_value c + char_sum str

char_sum-append : (xs ys : Text) → char_sum (xs ++ ys) ≡ char_sum xs + char_sum ys
unfolding char_sum
char_sum-append [] ys = omega arith
char_sum-append (x ∷ xs) ys = omega (arith, char_sum-append xs ys)

hash_from-char_sum :
    (str : Text) (acc : ℕ)
    → acc < size_t_mod
    → hash_from acc str ≡ (acc + char_sum str) % size_t_mod
unfolding hash_from char_sum
hash_from-char_sum [] acc h = omega arith
hash_from-char_sum (c ∷ str) acc h =
    omega (arith, hash_from-char_sum str ((acc + char_value c) % size_t_mod) (omega arith))

hash-char_sum : (str : Text) → hash str ≡ char_sum str % size_t_mod
unfolding hash
hash-char_sum str = omega (arith, hash_from-char_sum str 0 (omega arith))

pub hash-lt : (str : Text) → hash str < size_t_mod
hash-lt str = omega (arith, hash-char_sum str)

-- The hash of a text in two parts is the sum of the parts' hashes, modulo 2 ^ 64.
hash-append : (xs ys : Text) → hash (xs ++ ys) ≡ (hash xs + hash ys) % size_t_mod
hash-append xs ys =
    omega
      (arith, hash-char_sum (xs ++ ys), hash-char_sum xs, hash-char_sum ys, char_sum-append xs ys)

char_sum-Permᴰ : {xs ys : Text} → Permᴰ xs ys → char_sum xs ≡ char_sum ys
unfolding char_sum
char_sum-Permᴰ Permᴰ.nil = refl
char_sum-Permᴰ (Permᴰ.cons e p) = rw (e, char_sum-Permᴰ p)
char_sum-Permᴰ (Permᴰ.swap e f) = rw (e, f) (omega arith)
char_sum-Permᴰ (Permᴰ.trans p q) = char_sum-Permᴰ p ∙ char_sum-Permᴰ q

-- Texts with the same bytes in another order have the same hash.
pub hash-perm : {xs ys : Text} → Perm xs ys → hash xs ≡ hash ys
hash-perm {xs} {ys} p =
    hash-char_sum xs
    ∙ ∥∥₁_elim p (ℕ_set _ _) (λ q. omega (arith, char_sum-Permᴰ q, hash-char_sum ys))
