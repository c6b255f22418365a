-- ===== src/Disk/Laws.antt =====
-- What the operations on the file system change, told by look-ups.
use cpe400_peer_2_peer_file.Base.{
  ℕ, ◌+◌, ◌<◌, false, List, [], ◌∷◌, ◌++◌, Option, none, some, ◌==◌, path_eq, if◌then◌else◌, subst,
  ◌≡◌, refl, ap, ◌∙◌, ◌≢◌, inl, inr, arith, length, length-append, append_assoc, append-nil,
  Option-cases,
}
use cpe400_peer_2_peer_file.Base.Outcome.{Outcome, returns}
use cpe400_peer_2_peer_file.Base.Dict
use cpe400_peer_2_peer_file.Base.Dict.{lookup-insert, lookup-erase}
use cpe400_peer_2_peer_file.Paths.{FilePath}
use cpe400_peer_2_peer_file.Disk.{
  File, Entry, directory, file, Disk, is_directory, make_directory, make_directories_from,
  create_directories, remove,
}

longer-ne : (p q : FilePath) → length p < length q → q ≢ p
longer-ne p q h e = absurd (omega (arith, ap length e))

length-snoc : (prefix : FilePath) (name : List ℕ) → length (prefix ++ name ∷ []) ≡ length prefix + 1
length-snoc prefix name = omega (arith, length-append prefix (name ∷ []))

module _ {Ip : Type 0} where
  -- No file stands where a directory of the path has to be, above a prefix that is clear.
  abbrev pub ClearFrom : FilePath → FilePath → Disk Ip → Type 0
  ClearFrom prefix [] disk = Unit {0}
  ClearFrom prefix (name ∷ rest) disk =
      ((f : File Ip) → Dict.lookup (prefix ++ name ∷ []) disk ≢ some (file f))
      × ClearFrom (prefix ++ name ∷ []) rest disk

  -- The directories of the path can be made: the path is not empty, and no file is in the way.
  abbrev pub Clear : FilePath → Disk Ip → Type 0
  Clear [] disk = ⊥
  Clear (name ∷ rest) disk = ClearFrom [] (name ∷ rest) disk

  -- The outcome of making the directories from a prefix down: entries stay, and what is new is a
  -- directory no longer than the path.
  pub record Made (prefix rest : FilePath) (disk : Disk Ip) (result : Outcome (Disk Ip))
      : Type 0 where
    pub made : Disk Ip
    pub gives : result ≡ returns made
    pub keeps :
        (q : FilePath) {e : Entry Ip} → Dict.lookup q disk ≡ some e → Dict.lookup q made ≡ some e
    pub same_longer :
        (q : FilePath)
        → length prefix + length rest < length q
        → Dict.lookup q made ≡ Dict.lookup q disk
    pub ends :
        Dict.lookup prefix disk ≡ some directory
        → Dict.lookup (prefix ++ rest) made ≡ some directory

  make_directory-cases :
      (p : FilePath) (disk : Disk Ip)
      → ((f : File Ip) → Dict.lookup p disk ≢ some (file f))
      → (d : Disk Ip) × (make_directory (Dict.lookup p disk) p disk ≡ returns d)
        × ((q : FilePath)
            → Dict.lookup q d ≡ (if q == p then some directory else Dict.lookup q disk))
  make_directory-cases p disk clear = go (Dict.lookup p disk) refl
    where
      go :
          (e : Option (Entry Ip))
          → Dict.lookup p disk ≡ e
          → (d : Disk Ip) × (make_directory e p disk ≡ returns d)
            × ((q : FilePath)
                → Dict.lookup q d ≡ (if q == p then some directory else Dict.lookup q disk))
      go none h = (Dict.insert p directory disk, refl, λ q. lookup-insert q p directory disk)
      go (some directory) h = (disk, refl, λ q. ground arith)
      go (some (file f)) h = absurd (clear f h)

  ClearFrom-mono :
      (prefix rest : FilePath) (disk d : Disk Ip)
      → ((q : FilePath) (f : File Ip)
          → Dict.lookup q d ≡ some (file f)
          → (g : File Ip) × (Dict.lookup q disk ≡ some (file g)))
      → ClearFrom prefix rest disk
      → ClearFrom prefix rest d
  ClearFrom-mono prefix [] disk d h c = tt
  ClearFrom-mono prefix (name ∷ rest) disk d h c = (
    λ f e. let (g, k) = h (prefix ++ name ∷ []) f e in c.0 g k,
    ClearFrom-mono (prefix ++ name ∷ []) rest disk d h c.1,
  )

  new_directory-keeps :
      (p q : FilePath) (disk d : Disk Ip) (e : Entry Ip)
      → ((f : File Ip) → Dict.lookup p disk ≢ some (file f))
      → Dict.lookup q d ≡ (if q == p then some directory else Dict.lookup q disk)
      → Dict.lookup q disk ≡ some e
      → Dict.lookup q d ≡ some e
  new_directory-keeps p q disk d directory clear look h = ground arith
  new_directory-keeps p q disk d (file f) clear look h = ground (arith, clear f)

  make_directories_from-Made :
      (prefix rest : FilePath) (disk : Disk Ip)
      → ClearFrom prefix rest disk
      → Made prefix rest disk (make_directories_from prefix rest disk)
  unfolding make_directories_from
  make_directories_from-Made prefix [] disk c = record {
    made = disk;
    gives = refl;
    keeps = λ q h. h;
    same_longer = λ q h. refl;
    ends = λ h. rw (append-nil prefix) h;
  }
  make_directories_from-Made prefix (name ∷ rest) disk c =
      let here = prefix ++ name ∷ [] in
      let (d, gives, look) = make_directory-cases here disk c.0 in
      let down =
        make_directories_from-Made here rest d
          (ClearFrom-mono here rest disk d (λ q f e. (f, ground (arith, look q))) c.1) in
      record {
        made = down.made;
        gives = rw gives down.gives;
        keeps = λ q {e} h. down.keeps q (new_directory-keeps here q disk d e c.0 (look q) h);
        same_longer = λ q h.
            down.same_longer q (omega (arith, length-snoc prefix name))
            ∙ ground (arith, look q, longer-ne here q (omega (arith, length-snoc prefix name)));
        ends = λ h.
            subst (λ p. Dict.lookup p down.made ≡ some directory)
              (append_assoc prefix (name ∷ []) rest) (down.ends (ground (arith, look here)));
      }

  Clear-mono :
      (p : FilePath) (disk d : Disk Ip)
      → ((q : FilePath) (f : File Ip)
          → Dict.lookup q d ≡ some (file f)
          → (g : File Ip) × (Dict.lookup q disk ≡ some (file g)))
      → Clear p disk
      → Clear p d
  Clear-mono [] disk d h c = c
  Clear-mono (name ∷ rest) disk d h c = ClearFrom-mono [] (name ∷ rest) disk d h c

  -- A change of a file leaves every path as clear as it was.
  pub Clear-insert :
      (p target : FilePath) (disk : Disk Ip) (f f' : File Ip)
      → Dict.lookup target disk ≡ some (file f)
      → Clear p disk
      → Clear p (Dict.insert target (file f') disk)
  Clear-insert p target disk f f' here clear =
      Clear-mono p disk (Dict.insert target (file f') disk)
        (λ q g e. elim (path_eq.dec q target) [
          | yes same ↦ (f, ap (λ r. Dict.lookup r disk) same ∙ here)
          | no differ ↦ (g, ground (arith, lookup-insert q target (file f') disk))
        ])
        clear

  -- create_directories, on a path that is clear.
  pub record Created (p : FilePath) (disk : Disk Ip) : Type 0 where
    pub made : Disk Ip
    pub gives : create_directories p disk ≡ returns made
    pub keeps :
        (q : FilePath) {e : Entry Ip} → Dict.lookup q disk ≡ some e → Dict.lookup q made ≡ some e
    pub same_longer : (q : FilePath) → length p < length q → Dict.lookup q made ≡ Dict.lookup q disk
    pub there : Dict.lookup p made ≡ some directory

  pub create_directories-Created : (p : FilePath) (disk : Disk Ip) → Clear p disk → Created p disk
  unfolding create_directories make_directories_from
  create_directories-Created [] disk c = absurd c
  create_directories-Created (name ∷ rest) disk c =
      let (d, gives, look) = make_directory-cases (name ∷ []) disk c.0 in
      let down =
        make_directories_from-Made (name ∷ []) rest d
          (ClearFrom-mono (name ∷ []) rest disk d (λ q f e. (f, ground (arith, look q))) c.1) in
      record {
        made = down.made;
        gives = rw gives down.gives;
        keeps = λ q {e} h. down.keeps q (new_directory-keeps (name ∷ []) q disk d e c.0 (look q) h);
        same_longer = λ q h.
            down.same_longer q (omega arith)
            ∙ ground (arith, look q, longer-ne (name ∷ []) q (omega arith));
        there = down.ends (ground (arith, look (name ∷ [])));
      }

  -- remove, where no directory stands.
  pub remove_lem :
      (p : FilePath) (disk : Disk Ip)
      → is_directory (Dict.lookup p disk) ≡ false
      → (d : Disk Ip) × (remove p disk ≡ returns d)
        × ((q : FilePath) → Dict.lookup q d ≡ (if q == p then none else Dict.lookup q disk))
  unfolding remove
  remove_lem p disk plain = elim (Option-cases (Dict.lookup p disk)) [
    | inl missing ↦ (disk, ground arith, λ q. ground arith)
    | inr (e, here) ↦ (Dict.erase p disk, removed e here, λ q. lookup-erase q p disk)
  ]
    where
      removed :
          (e : Entry Ip) → Dict.lookup p disk ≡ some e → remove p disk ≡ returns (Dict.erase p disk)
      removed directory here = ground arith
      removed (file f) here = ground arith
