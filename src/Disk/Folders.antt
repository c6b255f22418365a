-- ===== src/Disk/Folders.antt =====
-- What create_directories leaves alone.
use cpe400_peer_2_peer_file.Base.{
  [], ◌∷◌, ◌++◌, Option, none, some, ◌==◌, path_eq, if◌then◌else◌, ◌≡◌, refl, sym, ◌∙◌, ◌≢◌, arith,
}
use cpe400_peer_2_peer_file.Base.Outcome.{returns, >>=-eq-returns}
use cpe400_peer_2_peer_file.Base.Dict
use cpe400_peer_2_peer_file.Base.Dict.{lookup-insert}
use cpe400_peer_2_peer_file.Paths.{FilePath}
use cpe400_peer_2_peer_file.Disk.{
  File, Entry, directory, file, Disk, make_directory, make_directories_from, create_directories,
}
use cpe400_peer_2_peer_file.Disk.Laws.{Clear, ClearFrom}

-- A path is none of the folders that lead from a prefix down.
abbrev pub NotFrom : FilePath → FilePath → FilePath → Type 0
NotFrom q prefix [] = Unit {0}
NotFrom q prefix (name ∷ rest) = (q ≢ prefix ++ name ∷ []) × NotFrom q (prefix ++ name ∷ []) rest

-- A path is not that of a folder or of one that leads to it.
abbrev pub NotFolder : FilePath → FilePath → Type 0
NotFolder q folder = NotFrom q [] folder

module _ {Ip : Type 0} where
  make_directory-lookup :
      (e : Option (Entry Ip)) (p : FilePath) (disk d : Disk Ip) (q : FilePath)
      → Dict.lookup p disk ≡ e
      → make_directory e p disk ≡ returns d
      → Dict.lookup q d ≡ (if q == p then some directory else Dict.lookup q disk)
  make_directory-lookup none p disk d q here made = ground (arith, lookup-insert q p directory disk)
  make_directory-lookup (some directory) p disk d q here made = ground arith
  make_directory-lookup (some (file f)) p disk d q here made = cc

  make_directories_from-apart :
      (prefix rest : FilePath) (disk d : Disk Ip) (q : FilePath)
      → make_directories_from prefix rest disk ≡ returns d
      → NotFrom q prefix rest
      → Dict.lookup q d ≡ Dict.lookup q disk
  unfolding make_directories_from
  make_directories_from-apart prefix [] disk d q made apart = ground arith
  make_directories_from-apart prefix (name ∷ rest) disk d q made apart =
      let here = prefix ++ name ∷ [] in
      let (d1, first, later) =
        >>=-eq-returns (make_directory (Dict.lookup here disk) here disk) _ made in
      make_directories_from-apart here rest d1 d q later apart.1
      ∙ ground
          (arith, make_directory-lookup (Dict.lookup here disk) here disk d1 q refl first, apart.0)

  make_directories_from-file :
      (prefix rest : FilePath) (disk d : Disk Ip) (q : FilePath) (f : File Ip)
      → make_directories_from prefix rest disk ≡ returns d
      → Dict.lookup q d ≡ some (file f)
      → Dict.lookup q disk ≡ some (file f)
  unfolding make_directories_from
  make_directories_from-file prefix [] disk d q f made there = ground arith
  make_directories_from-file prefix (name ∷ rest) disk d q f made there =
      let here = prefix ++ name ∷ [] in
      let (d1, first, later) =
        >>=-eq-returns (make_directory (Dict.lookup here disk) here disk) _ made in
      let on_way = make_directories_from-file here rest d1 d q f later there in
      ground (arith, make_directory-lookup (Dict.lookup here disk) here disk d1 q refl first)

  -- What is none of the folders stays as it is.
  pub create_directories-apart :
      (p : FilePath) (disk d : Disk Ip) (q : FilePath)
      → create_directories p disk ≡ returns d
      → NotFolder q p
      → Dict.lookup q d ≡ Dict.lookup q disk
  unfolding create_directories
  create_directories-apart [] disk d q made apart = cc
  create_directories-apart (name ∷ rest) disk d q made apart =
      make_directories_from-apart [] (name ∷ rest) disk d q made apart

  -- No file is made.
  pub create_directories-file :
      (p : FilePath) (disk d : Disk Ip) (q : FilePath) (f : File Ip)
      → create_directories p disk ≡ returns d
      → Dict.lookup q d ≡ some (file f)
      → Dict.lookup q disk ≡ some (file f)
  unfolding create_directories
  create_directories-file [] disk d q f made there = cc
  create_directories-file (name ∷ rest) disk d q f made there =
      make_directories_from-file [] (name ∷ rest) disk d q f made there

  ClearFrom-apart :
      (prefix rest : FilePath) (disk d : Disk Ip) (t : FilePath)
      → ((q : FilePath) (f : File Ip)
          → q ≢ t
          → Dict.lookup q d ≡ some (file f)
          → (g : File Ip) × (Dict.lookup q disk ≡ some (file g)))
      → NotFrom t prefix rest
      → ClearFrom prefix rest disk
      → ClearFrom prefix rest d
  ClearFrom-apart prefix [] disk d t old apart clear = tt
  ClearFrom-apart prefix (name ∷ rest) disk d t old apart clear = (
    λ f e.
        let (g, there) = old (prefix ++ name ∷ []) f (λ same. apart.0 (sym same)) e in
        clear.0 g there,
    ClearFrom-apart (prefix ++ name ∷ []) rest disk d t old apart.1 clear.1,
  )

  -- A path stays clear when the only new file is none of its folders.
  pub Clear-apart :
      (p : FilePath) (disk d : Disk Ip) (t : FilePath)
      → ((q : FilePath) (f : File Ip)
          → q ≢ t
          → Dict.lookup q d ≡ some (file f)
          → (g : File Ip) × (Dict.lookup q disk ≡ some (file g)))
      → NotFolder t p
      → Clear p disk
      → Clear p d
  Clear-apart [] disk d t old apart clear = clear
  Clear-apart (name ∷ rest) disk d t old apart clear =
      ClearFrom-apart [] (name ∷ rest) disk d t old apart clear
