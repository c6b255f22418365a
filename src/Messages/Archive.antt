-- ===== src/Messages/Archive.antt =====
-- The archives that messages are written to, and paths in them (messages.hpp). An archive is the list
-- of the values handed to it, each of the kind that it was handed over as.
use mathlib.Core.List.{reverse}
use cpe400_peer_2_peer_file.Base.{
  ℕ, zero, suc, List, [], ◌∷◌, ◌++◌, Option, none, some, ◌==◌, name_eq, if◌then◌else◌, length, ◌≡◌,
  refl, map, append_assoc, ◌∙◌, arith,
}
use cpe400_peer_2_peer_file.Text.{Text, codes}
use cpe400_peer_2_peer_file.Paths.{FilePath}

-- A value handed to an archive: a uint8_t, a wider integer, an array of bytes, a std::string, or the
-- size that precedes the elements of a vector.
pub data Field : Type 0 where
  octet : ℕ → Field
  number : ℕ → Field
  bytes : Text → Field
  text : Text → Field
  count : ℕ → Field

abbrev pub Archive : Type 0
Archive = List Field

-- A reader takes values off the front of the archive, or throws.
abbrev pub Reader : Type 0 → Type 0
Reader A = Archive → Option (A × Archive)

infixl 5 ◌>>=◌
abbrev pub ◌>>=◌ : {A B : Type 0} → Reader A → (A → Reader B) → Reader B
◌>>=◌ m f ar = elim (m ar) [ none ↦ none | some (a, rest) ↦ f a rest ]

abbrev pub pure : {A : Type 0} → A → Reader A
pure a ar = some (a, ar)

abbrev pub read_octet : Reader ℕ
read_octet (octet n ∷ ar) = some (n, ar)
read_octet _ = none

abbrev pub read_number : Reader ℕ
read_number (number n ∷ ar) = some (n, ar)
read_number _ = none

abbrev pub read_bytes : Reader Text
read_bytes (bytes b ∷ ar) = some (b, ar)
read_bytes _ = none

abbrev pub read_text : Reader Text
read_text (text t ∷ ar) = some (t, ar)
read_text _ = none

abbrev pub read_count : Reader ℕ
read_count (count n ∷ ar) = some (n, ar)
read_count _ = none

-- The elements of a vector.
unfoldable pub read_many : {A : Type 0} → Reader A → ℕ → Reader (List A)
read_many one zero ar = some ([], ar)
read_many one (suc n) ar = (one >>= λ a. read_many one n >>= λ rest. pure (a ∷ rest)) ar

unfoldable pub write_many : {A : Type 0} → (A → Archive) → List A → Archive
write_many one [] = []
write_many one (a ∷ rest) = one a ++ write_many one rest

-- path.lexically_normal(), of a relative path: no ".", and no name followed by "..". The
-- accumulator holds the names kept so far, the last one first.
back_up : FilePath → FilePath
back_up [] = codes ".." ∷ []
back_up (kept ∷ more) = if kept == codes ".." then codes ".." ∷ kept ∷ more else more

normal_onto : FilePath → FilePath → FilePath
unfolding back_up
normal_onto [] [] = codes "." ∷ []
normal_onto (kept ∷ more) [] = reverse (kept ∷ more)
normal_onto acc (name ∷ rest) =
    normal_onto
      (if name == codes "." then acc else if name == codes ".." then back_up acc else name ∷ acc)
      rest

unfoldable pub lexically_normal : FilePath → FilePath
unfolding normal_onto
lexically_normal p = normal_onto [] p

unfoldable pub save_path : FilePath → Archive
unfolding write_many
save_path p =
    let parts = lexically_normal p in
    count (length parts) ∷ write_many (λ part. text part ∷ []) parts

-- p.clear(), then p /= part for each part.
unfoldable pub load_path : Reader FilePath
unfolding read_many
load_path = read_count >>= λ n. read_many read_text n

-- A vector comes back if each element does.
pub read_many-write_many :
    {A B : Type 0} (write : A → Archive) (read : Reader B) (received : A → B)
    → ((a : A) (ar : Archive) → read (write a ++ ar) ≡ some (received a, ar))
    → (xs : List A) (ar : Archive)
    → read_many read (length xs) (write_many write xs ++ ar) ≡ some (map received xs, ar)
unfolding read_many write_many
read_many-write_many write read received back [] ar = refl
read_many-write_many write read received back (x ∷ xs) ar = ground (
  arith,
  append_assoc (write x) (write_many write xs) ar,
  back x (write_many write xs ++ ar),
  read_many-write_many write read received back xs ar,
)

pub map_id {ℓ} : {A : Type ℓ} (xs : List A) → map (λ x. x) xs ≡ xs
map_id [] = refl
map_id (x ∷ xs) = rw (map_id xs)

-- A path comes back as its normal form.
pub load_path-save_path :
    (p : FilePath) (ar : Archive) → load_path (save_path p ++ ar) ≡ some (lexically_normal p, ar)
unfolding load_path save_path
load_path-save_path p ar =
    read_many-write_many (λ part. text part ∷ []) read_text (λ x. x) (λ a r. refl)
      (lexically_normal p) ar
    ∙ rw map_id
