-- ===== src/Paths.antt =====
-- Paths (include_everywhere.hpp) and the paths of lock files (message_manager.cpp). A
-- std::filesystem::path is the list of the names that its iterator gives.
pub mod Laws
use cpe400_peer_2_peer_file.Base.{
  ℕ, Bool, true, false, ◌&&◌, List, [], ◌∷◌, ◌++◌, any, name_eq, ◌==◌,
}
use cpe400_peer_2_peer_file.Text.{Text, codes}

abbrev pub FilePath : Type 0
FilePath = List Text

abbrev pub wnts_name : Text
wnts_name = codes ".wnts"

-- The same path in the .wnts folder. The source reads through the end of an empty path, which no
-- managed file has; here that case is the empty path.
unfoldable pub wnts_path : FilePath → FilePath
wnts_path [] = []
wnts_path (first ∷ rest) = first ∷ wnts_name ∷ rest

-- path.remove_filename(): all but the last name.
unfoldable pub remove_filename : FilePath → FilePath
remove_filename [] = []
remove_filename (name ∷ []) = []
remove_filename (name ∷ next ∷ rest) = name ∷ remove_filename (next ∷ rest)

-- path.filename(): the last name.
unfoldable pub filename : FilePath → Text
filename [] = []
filename (name ∷ []) = name
filename (name ∷ next ∷ rest) = filename (next ∷ rest)

abbrev pub lock_prefix : Text
lock_prefix = codes ".lock."

unfoldable pub lock_file_path : FilePath → FilePath
unfolding wnts_path remove_filename filename
lock_file_path p = remove_filename (wnts_path p) ++ ((lock_prefix ++ filename p) ∷ [])

-- The test of enumerateAllFiles on the folders of a path.
unfoldable pub in_wnts : FilePath → Bool
in_wnts = any (λ folder. folder == wnts_name)

-- Whether a path lies below a folder, at any depth.
unfoldable pub below : FilePath → FilePath → Bool
below [] [] = false
below [] (name ∷ rest) = true
below (f ∷ folder) [] = false
below (f ∷ folder) (name ∷ rest) = f == name && below folder rest
