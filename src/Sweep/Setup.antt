-- ===== src/Sweep/Setup.antt =====
-- FilesystemSweeper::setup (file_sweep.hpp): the .wnts folders are removed at the start.
use cpe400_peer_2_peer_file.Base.{
  not, ◌||◌, List, [], ◌∷◌, ◌++◌, none, name_eq, path_eq, ◌==◌, select, if◌then◌else◌, ◌≡◌, refl,
  ◌∙◌, ◌≢◌, All, arith, Bool-cases, inl, inr,
}
use cpe400_peer_2_peer_file.Base.Dict
use cpe400_peer_2_peer_file.Text.{Text}
use cpe400_peer_2_peer_file.Paths.{FilePath, wnts_name, wnts_path, below}
use cpe400_peer_2_peer_file.Disk.{Disk}

-- A folder of at least two names, the second of which is not .wnts.
pub data IsDeep : FilePath → Type 0 where
  deep :
      (first second : Text) (rest : FilePath) → second ≢ wnts_name → IsDeep (first ∷ second ∷ rest)

module _ {Ip : Type 0} where
  -- remove_all(p): p and all that is below it
  unfoldable pub remove_all : FilePath → Disk Ip → Disk Ip
  remove_all p disk = select (λ entry. not (entry.0 == p || below p entry.0)) disk

  unfoldable pub setup : List FilePath → Disk Ip → Disk Ip
  setup [] disk = disk
  setup (folder ∷ folders) disk = setup folders (remove_all (folder ++ wnts_name ∷ []) disk)

  lookup-remove_all :
      (p q : FilePath) (disk : Disk Ip)
      → Dict.lookup q (remove_all p disk)
        ≡ (if q == p || below p q then none else Dict.lookup q disk)
  unfolding remove_all Dict.lookup
  lookup-remove_all p q [] = ground arith
  lookup-remove_all p q ((r, e) ∷ disk) = elim (Bool-cases (q == r)) [
    | inl same ↦ let is : q ≡ r = ground arith in rw is (ground (arith, lookup-remove_all p q disk))
    | inr other ↦ ground (arith, lookup-remove_all p q disk)
  ]

  -- What is not there stays away.
  setup-none :
      (folders : List FilePath) (q : FilePath) (disk : Disk Ip)
      → Dict.lookup q disk ≡ none
      → Dict.lookup q (setup folders disk) ≡ none
  unfolding setup
  setup-none [] q disk h = h
  setup-none (folder ∷ folders) q disk h =
      setup-none folders q (remove_all (folder ++ wnts_name ∷ []) disk)
        (ground (arith, lookup-remove_all (folder ++ wnts_name ∷ []) q disk))

  -- Where a managed folder is a single name, no record of a file below it is left: neither its saved
  -- hash nor its lock file, which lie in its .wnts folder.
  setup_clears :
      (before after : List FilePath) (first name : Text) (rest : FilePath) (disk : Disk Ip)
      → Dict.lookup (wnts_path (first ∷ name ∷ rest)) (setup (before ++ (first ∷ []) ∷ after) disk)
        ≡ none
  unfolding setup wnts_path below
  setup_clears [] after first name rest disk =
      let q = first ∷ wnts_name ∷ name ∷ rest in
      let p = first ∷ wnts_name ∷ [] in
      setup-none after q (remove_all p disk) (ground (arith, lookup-remove_all p q disk))
  setup_clears (folder ∷ before) after first name rest disk =
      setup_clears before after first name rest (remove_all (folder ++ wnts_name ∷ []) disk)

  kept_by_deep :
      (folder : FilePath) (first : Text) (rest : FilePath) (disk : Disk Ip)
      → IsDeep folder
      → let q = first ∷ wnts_name ∷ rest in
        Dict.lookup q (remove_all (folder ++ wnts_name ∷ []) disk) ≡ Dict.lookup q disk
  unfolding below
  kept_by_deep _ first rest disk (deep a b more differ) =
      ground (
        arith,
        lookup-remove_all (a ∷ b ∷ (more ++ wnts_name ∷ [])) (first ∷ wnts_name ∷ rest) disk,
      )

  -- Where all managed folders have at least two names, every record stays as it was: it lies in the
  -- .wnts folder of the first name, and what is removed is the .wnts folder of the last one.
  pub setup_keeps :
      (folders : List FilePath) (first : Text) (rest : FilePath) (disk : Disk Ip)
      → All IsDeep folders
      → Dict.lookup (wnts_path (first ∷ rest)) (setup folders disk)
        ≡ Dict.lookup (wnts_path (first ∷ rest)) disk
  unfolding setup wnts_path
  setup_keeps [] first rest disk h = refl
  setup_keeps (folder ∷ folders) first rest disk h =
      setup_keeps folders first rest (remove_all (folder ++ wnts_name ∷ []) disk) h.1
      ∙ kept_by_deep folder first rest disk h.0
