-- ===== src/Sweep/Reports.antt =====
-- What a sweep reports, told by surroundings that record the callbacks.
use cpe400_peer_2_peer_file.Base.{
  ℕ, ◌+◌, ◌%◌, false, List, [], ◌∷◌, ◌++◌, map, Option, none, path_eq, ◌≡◌, refl, ◌≢◌, All, arith,
  append_assoc, append-nil,
}
use cpe400_peer_2_peer_file.Base.Outcome.{returns}
use cpe400_peer_2_peer_file.Text.{size_t_mod}
use cpe400_peer_2_peer_file.Paths.{FilePath}
use cpe400_peer_2_peer_file.Sweep.{
  Event, deleted, Surroundings, Stamps, Sweeper, paths_of, erase_all, scan, Judged, judge_file,
  judge, sweep,
}

-- Surroundings whose callbacks only record what they are called for.
abbrev pub recorder : (FilePath → Option ℕ) → List FilePath → ℕ → Surroundings (List Event)
recorder last_write paths now = record {
  act = λ event events. returns (events ++ event ∷ []);
  last_write = λ path events. last_write path;
  enumerate = λ events. returns paths;
  now = λ events. now;
}

-- No file of the map was seen in this iteration.
abbrev pub Unseen : ℕ → Stamps → Type 0
Unseen iteration = All (λ stamp. stamp.1.1 ≢ iteration)

module _ (last_write : FilePath → Option ℕ) (paths : List FilePath) (time : ℕ) where
  judge-Unseen :
      (stamps : Stamps) (now : ℕ) (s : Sweeper) (j : Judged (recorder last_write paths time))
      → Unseen s.iteration stamps
      → judge (recorder last_write paths time) stamps now s j
        ≡ returns (record j {
          world = j.world ++ map deleted (paths_of stamps);
          removed = j.removed ++ paths_of stamps;
        })
  unfolding judge judge_file
  judge-Unseen [] now s j h = rw (append-nil j.world, append-nil j.removed) refl
  judge-Unseen ((path, (timestamp, seen)) ∷ rest) now s j h =
      let j' : Judged (recorder last_write paths time) = record j {
        world = j.world ++ deleted path ∷ [];
        removed = j.removed ++ path ∷ [];
      } in
      ground (
        arith,
        h.0,
        judge-Unseen rest now s j' h.1,
        append_assoc j.world (deleted path ∷ []) (map deleted (paths_of rest)),
        append_assoc j.removed (path ∷ []) (paths_of rest),
      )

  scan-missing :
      (s : Sweeper) (stamps : Stamps) (path : FilePath) (pair : ℕ × ℕ) (rest : Stamps)
      (events : List Event)
      → stamps ≡ (path, pair) ∷ rest
      → last_write path ≡ none
      → scan (recorder last_write paths time) false (paths_of stamps) s events
        ≡ returns (record { sweeper = s; world = events; removed = path ∷ [] })
  unfolding scan
  scan-missing s stamps path pair rest events first missing = rw (first, missing, scan) refl

  -- A sweep of the fast track whose first file is missing, when no file of it was seen in this
  -- iteration: every file of the fast track is reported as deleted, in order, whether it is missing or
  -- not, nothing else is reported, and all of them are erased from both maps.
  pub sweep_missing :
      (s : Sweeper) (path : FilePath) (pair : ℕ × ℕ) (rest : Stamps) (events : List Event)
      → s.fast_track_timestamps ≡ (path, pair) ∷ rest
      → last_write path ≡ none
      → Unseen s.iteration s.fast_track_timestamps
      → sweep (recorder last_write paths time) false s events
        ≡ returns (
          record {
            timestamps = erase_all (path ∷ paths_of s.fast_track_timestamps) s.timestamps;
            fast_track_timestamps =
                erase_all (path ∷ paths_of s.fast_track_timestamps) s.fast_track_timestamps;
            iteration = (s.iteration + 1) % size_t_mod;
          },
          events ++ map deleted (paths_of s.fast_track_timestamps),
        )
  unfolding sweep scan erase_all
  sweep_missing s path pair rest events first missing unseen =
      let all =
        judge-Unseen s.fast_track_timestamps time s
          (record { world = events; removed = path ∷ []; slow = [] }) unseen in
      rw (scan-missing s s.fast_track_timestamps path pair rest events first missing, all) refl
