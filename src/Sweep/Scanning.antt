-- ===== src/Sweep/Scanning.antt =====
-- What a total scan of files that are all there reports, and the stamps that it leaves.
use cpe400_peer_2_peer_file.Base.{
  ℕ, Bool, true, false, ◌&&◌, List, [], ◌∷◌, ◌++◌, Option, none, some, path_eq, ltb, if◌then◌else◌,
  ◌≡◌, refl, ◌≢◌, All, arith, append_assoc, append-nil,
}
use cpe400_peer_2_peer_file.Base.Outcome.{returns}
use cpe400_peer_2_peer_file.Base.Dict
use cpe400_peer_2_peer_file.Paths.{FilePath}
use cpe400_peer_2_peer_file.Sweep.{
  Event, created, modified, fast_tracked, Sweeper, is_tracked, put, report_change, scan_file, scan,
}
use cpe400_peer_2_peer_file.Sweep.Reports.{recorder}
use cpe400_peer_2_peer_file.Sweep.Keys.{member, lookup-put}
use cpe400_peer_2_peer_file.Sweep.Verdicts.{concat_map}

abbrev pub Distinct : List FilePath → Type 0
Distinct [] = Unit {0}
Distinct (p ∷ ps) = All (λ q. q ≢ p) ps × Distinct ps

module _ (times : FilePath → ℕ) where
  -- Whether a file is new, or newer than its stamp.
  abbrev pub is_changed : Option (ℕ × ℕ) → FilePath → Bool
  is_changed none p = true
  is_changed (some (stored, seen)) p = ltb stored (times p)

  abbrev change_event : Option (ℕ × ℕ) → FilePath → Event
  change_event none p = created p
  change_event (some stamp) p = modified p

  -- What is to be reported of a file that is there: nothing, or its creation or change, and that it is
  -- fast tracked where it was not.
  abbrev pub changes : Sweeper → FilePath → List Event
  changes s p =
      let stamp = Dict.lookup p s.timestamps in
      if is_changed stamp p
      then change_event stamp p
        ∷ (if is_tracked (Dict.lookup p s.fast_track_timestamps) then [] else fast_tracked p ∷ [])
      else []

  -- The sweeper after a file.
  abbrev pub after_file : Sweeper → FilePath → Sweeper
  after_file s p = record {
    timestamps = put p (times p, s.iteration) s.timestamps;
    fast_track_timestamps =
        if is_changed (Dict.lookup p s.timestamps) p
        then put p (times p, s.iteration) s.fast_track_timestamps
        else s.fast_track_timestamps;
    iteration = s.iteration;
  }

  abbrev pub after_files : List FilePath → Sweeper → Sweeper
  after_files [] s = s
  after_files (p ∷ ps) s = after_files ps (after_file s p)

  module _ (paths : List FilePath) (time : ℕ) where
    scan_file-total :
        (p : FilePath) (s : Sweeper) (w : List Event)
        → scan_file (recorder (λ q. some (times q)) paths time) true p (times p) s w
          ≡ returns (after_file s p, w ++ changes s p)
    unfolding scan_file report_change
    scan_file-total p s w = ground (
      arith,
      append-nil w,
      append_assoc w (created p ∷ []) (fast_tracked p ∷ []),
      append_assoc w (modified p ∷ []) (fast_tracked p ∷ []),
    )

    -- Another file's report stays as it was.
    changes-after_file :
        (p q : FilePath) (s : Sweeper) → q ≢ p → changes (after_file s p) q ≡ changes s q
    changes-after_file p q s differ = ground (
      arith,
      lookup-put q p (times p, s.iteration) s.timestamps,
      lookup-put q p (times p, s.iteration) s.fast_track_timestamps,
    )

    concat_map-after_file :
        (p : FilePath) (ps : List FilePath) (s : Sweeper)
        → All (λ q. q ≢ p) ps
        → concat_map (changes (after_file s p)) ps ≡ concat_map (changes s) ps
    concat_map-after_file p [] s h = refl
    concat_map-after_file p (q ∷ ps) s h =
        rw (changes-after_file p q s h.0, concat_map-after_file p ps s h.1) refl

    pub scan-total :
        (ps : List FilePath) (s : Sweeper) (w : List Event)
        → Distinct ps
        → scan (recorder (λ q. some (times q)) paths time) true ps s w
          ≡ returns (record {
            sweeper = after_files ps s;
            world = w ++ concat_map (changes s) ps;
            removed = [];
          })
    unfolding scan
    scan-total [] s w h = rw (append-nil w) refl
    scan-total (p ∷ ps) s w h = ground (
      arith,
      scan_file-total p s w,
      scan-total ps (after_file s p) (w ++ changes s p) h.1,
      concat_map-after_file p ps s h.0,
      append_assoc w (changes s p) (concat_map (changes s) ps),
    )

    pub lookup-after_files :
        (ps : List FilePath) (s : Sweeper) (q : FilePath)
        → Dict.lookup q (after_files ps s).timestamps
          ≡ (if member q ps then some (times q, s.iteration) else Dict.lookup q s.timestamps)
    lookup-after_files [] s q = refl
    lookup-after_files (p ∷ ps) s q = ground (
      arith,
      lookup-after_files ps (after_file s p) q,
      lookup-put q p (times p, s.iteration) s.timestamps,
    )

    others-member : (p : FilePath) (ps : List FilePath) → All (λ q. q ≢ p) ps → member p ps ≡ false
    others-member p [] h = refl
    others-member p (q ∷ ps) h = ground (arith, others-member p ps h.1, h.0)

    pub fast-after_files :
        (ps : List FilePath) (s : Sweeper) (q : FilePath)
        → Distinct ps
        → Dict.lookup q (after_files ps s).fast_track_timestamps ≡ (
            if member q ps && is_changed (Dict.lookup q s.timestamps) q
            then some (times q, s.iteration)
            else Dict.lookup q s.fast_track_timestamps)
    fast-after_files [] s q h = refl
    fast-after_files (p ∷ ps) s q h = ground (
      arith,
      fast-after_files ps (after_file s p) q h.1,
      others-member p ps h.0,
      lookup-put q p (times p, s.iteration) s.timestamps,
      lookup-put q p (times p, s.iteration) s.fast_track_timestamps,
    )

    pub iteration-after_files :
        (ps : List FilePath) (s : Sweeper) → (after_files ps s).iteration ≡ s.iteration
    iteration-after_files [] s = refl
    iteration-after_files (p ∷ ps) s = iteration-after_files ps (after_file s p)
