-- ===== src/Paths/Laws.antt =====
-- Where the bookkeeping of a file lies, and when two files share it.
use mathlib.Core.Path.{ap₂}
use cpe400_peer_2_peer_file.Base.{
  suc, ◌<◌, ◌≡◌, ◌≢◌, refl, length, length-append, ap, sym, ◌∙◌, true, [], ◌∷◌, ◌++◌, arith,
  name_eq,
}
use cpe400_peer_2_peer_file.Text.{Text}
use cpe400_peer_2_peer_file.Paths.{
  FilePath, wnts_name, wnts_path, remove_filename, filename, lock_prefix, lock_file_path, in_wnts,
}

-- A path with at least two names, the last one apart: first/dirs/name.
abbrev pub nested : Text → FilePath → Text → FilePath
nested first dirs name = first ∷ (dirs ++ name ∷ [])

remove_filename-append :
    (dirs : FilePath) (name : Text) → remove_filename (dirs ++ name ∷ []) ≡ dirs
unfolding remove_filename
remove_filename-append [] name = refl
remove_filename-append (d ∷ []) name = refl
remove_filename-append (d ∷ e ∷ dirs) name = ap (◌∷◌ d) (remove_filename-append (e ∷ dirs) name)

filename-append : (dirs : FilePath) (name : Text) → filename (dirs ++ name ∷ []) ≡ name
unfolding filename
filename-append [] name = refl
filename-append (d ∷ []) name = refl
filename-append (d ∷ e ∷ dirs) name = filename-append (e ∷ dirs) name

-- The lock file of first/dirs/name is first/.wnts/dirs/.lock.name.
lock_file_path-nested :
    (first : Text) (dirs : FilePath) (name : Text)
    → lock_file_path (nested first dirs name)
      ≡ nested first (wnts_name ∷ dirs) (lock_prefix ++ name)
unfolding lock_file_path
lock_file_path-nested first dirs name =
    ap₂ (λ (dir : FilePath) (n : Text). dir ++ ((lock_prefix ++ n) ∷ []))
      (remove_filename-append (first ∷ wnts_name ∷ dirs) name) (filename-append (first ∷ dirs) name)

nested_injective :
    (first first' : Text) (dirs dirs' : FilePath) (name name' : Text)
    → nested first dirs name ≡ nested first' dirs' name'
    → (first ∷ dirs ≡ first' ∷ dirs') × (name ≡ name')
nested_injective first first' dirs dirs' name name' e = (
  sym (remove_filename-append (first ∷ dirs) name)
      ∙ ap remove_filename e
      ∙ remove_filename-append (first' ∷ dirs') name',
  sym (filename-append (first ∷ dirs) name)
      ∙ ap filename e
      ∙ filename-append (first' ∷ dirs') name',
)

-- Two files of managed folders (each at least two names deep) that have the same lock file are the
-- same file.
lock_file_path_injective :
    (first first' : Text) (dirs dirs' : FilePath) (name name' : Text)
    → lock_file_path (nested first dirs name) ≡ lock_file_path (nested first' dirs' name')
    → nested first dirs name ≡ nested first' dirs' name'
lock_file_path_injective first first' dirs dirs' name name' e =
    let parts =
      nested_injective first first' (wnts_name ∷ dirs) (wnts_name ∷ dirs') (lock_prefix ++ name)
        (lock_prefix ++ name')
        (sym (lock_file_path-nested first dirs name)
          ∙ e
          ∙ lock_file_path-nested first' dirs' name') in
    cc (parts.0, parts.1)

-- The lock file of first/dirs/name is the saved hash of first/dirs/.lock.name.
lock_file_path-wnts_path :
    (first : Text) (dirs : FilePath) (name : Text)
    → lock_file_path (nested first dirs name) ≡ wnts_path (nested first dirs (lock_prefix ++ name))
unfolding wnts_path
lock_file_path-wnts_path first dirs name = lock_file_path-nested first dirs name

-- Lock files and saved hashes lie in a .wnts folder, so that they are not managed themselves.
lock_file_path-in_wnts :
    (first : Text) (dirs : FilePath) (name : Text)
    → (in_wnts (lock_file_path (nested first dirs name)) ≡ true)
      × (in_wnts (wnts_path (nested first dirs name)) ≡ true)
unfolding in_wnts wnts_path
lock_file_path-in_wnts first dirs name =
    (rw (lock_file_path-nested first dirs name) (ground arith), ground arith)

-- The folder of a lock file.
remove_filename-lock_file_path :
    (p : FilePath) → remove_filename (lock_file_path p) ≡ remove_filename (wnts_path p)
unfolding lock_file_path
remove_filename-lock_file_path p =
    remove_filename-append (remove_filename (wnts_path p)) (lock_prefix ++ filename p)

pub length-lock_file_path :
    (p : FilePath) → length (remove_filename (lock_file_path p)) < length (lock_file_path p)
unfolding lock_file_path
length-lock_file_path p =
    let dir = remove_filename (wnts_path p) in
    let last = lock_prefix ++ filename p in
    omega (arith, ap length (remove_filename-append dir last), length-append dir (last ∷ []))

length-remove_filename :
    (name : Text) (p : FilePath) → length (remove_filename (name ∷ p)) ≡ length p
unfolding remove_filename
length-remove_filename name [] = refl
length-remove_filename name (next ∷ p) = ap suc (length-remove_filename next p)

-- A lock file is never the file that it locks.
pub lock_file_path-ne : (p : FilePath) → lock_file_path p ≢ p
unfolding lock_file_path
lock_file_path-ne [] e = cc e
lock_file_path-ne (first ∷ rest) e = absurd (
    omega (
      arith,
      ap length e,
      length-append (remove_filename (first ∷ wnts_name ∷ rest))
          ((lock_prefix ++ filename (first ∷ rest)) ∷ []),
      length-remove_filename first (wnts_name ∷ rest),
    ))
