-- ===== src/Text.antt =====
-- Texts and their hash (include_everywhere.hpp). A std::string is the list of its bytes, each below 256.
pub mod Hash
use Prim.Native.Char.{code}
use Prim.Native.String.{String}
use cpe400_peer_2_peer_file.Base.{
  ℕ, zero, suc, ◌+◌, ◌-◌, ◌/◌, ◌%◌, ◌^◌, List, [], ◌∷◌, ltb, if◌then◌else◌,
}

abbrev pub Text : Type 0
Text = List ℕ

-- The bytes of an ASCII literal.
abbrev pub codes : String → Text
codes String.[] = []
codes (String.◌∷◌ c s) = code c ∷ codes s

abbrev pub size_t_mod : ℕ
size_t_mod = 2 ^ 64

-- A char is signed: converted to size_t, a byte from 128 on stands for its value less 256.
abbrev pub char_value : ℕ → ℕ
char_value b = if ltb b 128 then b else b + (2 ^ 64 - 256)

hash_from : ℕ → Text → ℕ
hash_from acc [] = acc
hash_from acc (c ∷ str) = hash_from ((acc + char_value c) % size_t_mod) str

unfoldable pub hash : Text → ℕ
unfolding hash_from
hash str = hash_from 0 str

-- std::to_string: twenty digits hold every size_t.
decimal_digits : ℕ → ℕ → Text → Text
decimal_digits zero n out = out
decimal_digits (suc f) n out =
    let digit = b'0' + n % 10 in
    let rest = decimal_digits f (n / 10) (digit ∷ out) in if ltb n 10 then digit ∷ out else rest

unfoldable pub decimal : ℕ → Text
unfolding decimal_digits
decimal n = decimal_digits 20 n []
