-- ===== src/Sweep.antt =====
-- FilesystemSweeper (file_sweep.hpp), over any surroundings: the file system, the clock and the
-- callbacks.
pub mod Reports
pub mod Keys
pub mod Verdicts
pub mod Scanning
pub mod Changes
pub mod Setup
pub mod Worlds
use cpe400_peer_2_peer_file.Base.{
  ℕ, ◌+◌, ◌-◌, ◌/◌, ◌%◌, ◌^◌, Bool, true, false, not, List, [], ◌∷◌, ◌++◌, map, Option, none, some,
  path_eq, eqb, ltb, ◌||◌, ◌&&◌, if◌then◌else◌,
}
use cpe400_peer_2_peer_file.Base.Outcome.{
  Exception, no_such_file, Outcome, returns, throws, undefined, too_deep, ◌>>=◌,
}
use cpe400_peer_2_peer_file.Base.Dict
use cpe400_peer_2_peer_file.Base.Dict.{Dict}
use cpe400_peer_2_peer_file.Text.{Text, size_t_mod}
use cpe400_peer_2_peer_file.Paths.{FilePath}

-- The five callbacks, each with its path.
pub data Event : Type 0 where
  created modified deleted fast_tracked unfast_tracked : FilePath → Event

pub record Surroundings (W : Type 0) : Type 0 where
  pub act : Event → W → Outcome W
  -- last_write_time, where none is the exception of a missing file
  pub last_write : FilePath → W → Option ℕ
  -- enumerateAllFiles of the sweeper's folders
  pub enumerate : W → Outcome (List FilePath)
  -- file_time_type::clock::now(), in nanoseconds
  pub now : W → ℕ

-- A time stamp and the iteration that last saw the file, for each file, in the order of the paths.
abbrev pub Stamps : Type 0
Stamps = Dict FilePath (ℕ × ℕ)

pub record Sweeper : Type 0 where
  pub timestamps : Stamps
  pub fast_track_timestamps : Stamps
  pub iteration : ℕ

abbrev pub is_tracked : Option (ℕ × ℕ) → Bool
is_tracked none = false
is_tracked (some pair) = true

-- The map that the pointer timestamps is set to.
abbrev pub stamps_of : Bool → Sweeper → Stamps
stamps_of true s = s.timestamps
stamps_of false s = s.fast_track_timestamps

-- The order of a std::map of paths: name by name, and the names byte by byte.
abbrev pub name_before : Text → Text → Bool
name_before a [] = false
name_before [] (d ∷ b) = true
name_before (c ∷ a) (d ∷ b) = ltb c d || (eqb c d && name_before a b)

abbrev pub path_before : FilePath → FilePath → Bool
path_before p [] = false
path_before [] (m ∷ q) = true
path_before (n ∷ p) (m ∷ q) = name_before n m || (not (name_before m n) && path_before p q)

unfoldable pub place : FilePath → ℕ × ℕ → Stamps → Stamps
place p pair [] = (p, pair) ∷ []
place p pair (e ∷ stamps) =
    let rest = place p pair stamps in if path_before p e.0 then (p, pair) ∷ e ∷ stamps else e ∷ rest

-- stamps[p] = pair
unfoldable pub put : FilePath → ℕ × ℕ → Stamps → Stamps
put p pair stamps = place p pair (Dict.erase p stamps)

abbrev pub put_stamp : Bool → FilePath → ℕ × ℕ → Sweeper → Sweeper
put_stamp true p pair s = record s { timestamps = put p pair s.timestamps }
put_stamp false p pair s = record s { fast_track_timestamps = put p pair s.fast_track_timestamps }

abbrev pub paths_of : Stamps → List FilePath
paths_of = map (λ (p, pair). p)

unfoldable pub erase_all : List FilePath → Stamps → Stamps
erase_all [] stamps = stamps
erase_all (p ∷ ps) stamps = erase_all ps (Dict.erase p stamps)

-- Older than ten seconds.
abbrev pub is_old : ℕ → ℕ → Bool
is_old now timestamp = ltb 10_000 ((now - timestamp) / 10 ^ 6)

module _ {W : Type 0} (sur : Surroundings W) where
  -- A file was created or modified: it is reported, and fast tracked.
  unfoldable pub report_change :
      (FilePath → Event) → FilePath → ℕ × ℕ → Sweeper → W → Outcome (Sweeper × W)
  report_change event path pair s w = sur.act (event path) w >>= λ w'.
      (if is_tracked (Dict.lookup path s.fast_track_timestamps)
        then returns w'
        else sur.act (fast_tracked path) w')
      >>= λ w''.
          returns (record s { fast_track_timestamps = put path pair s.fast_track_timestamps }, w'')

  -- The body of the loop over the paths.
  unfoldable pub scan_file : Bool → FilePath → ℕ → Sweeper → W → Outcome (Sweeper × W)
  scan_file total path timestamp s w =
      let pair : ℕ × ℕ = (timestamp, s.iteration) in
      elim (Dict.lookup path (stamps_of total s)) [
        | none ↦ report_change created path pair s w
        | some (stored, _) ↦
            if ltb stored timestamp then report_change modified path pair s w else returns (s, w)
      ]
      >>= λ (s', w'). returns (put_stamp total path pair s', w')

  -- What a scan leaves: the sweeper, the surroundings, and the files found to be missing.
  pub record Scanned : Type 0 where
    pub sweeper : Sweeper
    pub world : W
    pub removed : List FilePath

  abbrev pub scanned : Sweeper → W → List FilePath → Scanned
  scanned s w removed = record { sweeper = s; world = w; removed = removed }

  -- The handler: the error of a missing file ends the scan, and any other goes on up.
  abbrev pub catch_missing : Exception → FilePath → Sweeper → W → Outcome Scanned
  catch_missing no_such_file path s w = returns (scanned s w (path ∷ []))
  catch_missing e path s w = throws e

  -- The loop over the paths, in its try block.
  unfoldable pub scan : Bool → List FilePath → Sweeper → W → Outcome Scanned
  scan total [] s w = returns (scanned s w [])
  scan total (path ∷ paths) s w = elim (sur.last_write path w) [
    | none ↦ returns (scanned s w (path ∷ []))
    | some timestamp ↦ elim (scan_file total path timestamp s w) [
      | returns (s', w') ↦ scan total paths s' w'
      | throws e ↦ catch_missing e path s w
      | undefined ↦ undefined
      | too_deep ↦ too_deep
    ]
  ]

  -- What the loop over the tracked files leaves: the surroundings, the files to remove from both maps,
  -- and those to remove from the fast track.
  pub record Judged : Type 0 where
    pub world : W
    pub removed : List FilePath
    pub slow : List FilePath

  unfoldable pub judge_file : FilePath → ℕ × ℕ → ℕ → Sweeper → Judged → Outcome Judged
  judge_file path (timestamp, seen) now s j =
      if not (eqb seen s.iteration)
      then (sur.act (deleted path) j.world >>= λ w.
          returns (record j { world = w; removed = j.removed ++ path ∷ [] }))
      else if is_old now timestamp
      then ((if is_tracked (Dict.lookup path s.fast_track_timestamps)
            then sur.act (unfast_tracked path) j.world
            else returns j.world)
          >>= λ w. returns (record j { world = w; slow = j.slow ++ path ∷ [] }))
      else returns j

  unfoldable pub judge : Stamps → ℕ → Sweeper → Judged → Outcome Judged
  judge [] now s j = returns j
  judge ((path, pair) ∷ rest) now s j = judge_file path pair now s j >>= λ j'. judge rest now s j'

  -- sweep
  unfoldable pub sweep : Bool → Sweeper → W → Outcome (Sweeper × W)
  sweep total s w =
      (if total then sur.enumerate w else returns (paths_of s.fast_track_timestamps)) >>= λ paths.
      scan total paths s w >>= λ c.
      judge (stamps_of total c.sweeper) (sur.now c.world) c.sweeper
        (record { world = c.world; removed = c.removed; slow = [] })
      >>= λ j. returns (
        record {
          timestamps = erase_all j.removed c.sweeper.timestamps;
          fast_track_timestamps =
              erase_all j.slow (erase_all j.removed c.sweeper.fast_track_timestamps);
          iteration = (c.sweeper.iteration + 1) % size_t_mod;
        },
        j.world,
      )

  -- totalSweepEveryN
  unfoldable pub total_sweep_every_n : ℕ → Sweeper → W → Outcome (Sweeper × W)
  total_sweep_every_n n s w = sweep (eqb (s.iteration % n) 0) s w
