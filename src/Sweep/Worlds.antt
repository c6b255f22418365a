-- ===== src/Sweep/Worlds.antt =====
-- What the callbacks of a sweep preserve, the sweep preserves.
use cpe400_peer_2_peer_file.Base.{
  ℕ, Bool, not, List, [], ◌∷◌, path_eq, Option, none, some, ltb, eqb, if◌then◌else◌,
}
use cpe400_peer_2_peer_file.Base.Outcome.{
  Outcome, no_such_file, returns, throws, undefined, too_deep, Ensures, >>=-Ensures,
  returned-Ensures, if-Ensures,
}
use cpe400_peer_2_peer_file.Base.Dict
use cpe400_peer_2_peer_file.Paths.{FilePath}
use cpe400_peer_2_peer_file.Sweep.{
  Event, created, modified, deleted, fast_tracked, unfast_tracked, Surroundings, Stamps, Sweeper,
  is_tracked, is_old, stamps_of, report_change, scan_file, Scanned, scanned, catch_missing, scan,
  Judged, judge_file, judge, sweep,
}

module _ {W : Type 0} (sur : Surroundings W) (P : W → Type 0)
    (acts : (event : Event) (w : W) → P w → Ensures P (sur.act event w)) where
  report_change-Ensures :
      (event : FilePath → Event) (path : FilePath) (pair : ℕ × ℕ) (s : Sweeper) (w : W)
      → P w
      → Ensures (λ (s', w'). P w') (report_change sur event path pair s w)
  unfolding report_change
  report_change-Ensures event path pair s w h =
      >>=-Ensures P _ _ _ (acts (event path) w h) (λ w' h'.
        >>=-Ensures P _ _ _
          (if-Ensures P (is_tracked (Dict.lookup path s.fast_track_timestamps)) _ _ h'
            (acts (fast_tracked path) w' h'))
          (λ w'' h''. h''))

  reported-Ensures :
      (found : Option (ℕ × ℕ)) (path : FilePath) (timestamp : ℕ) (pair : ℕ × ℕ) (s : Sweeper)
      (w : W)
      → P w
      → Ensures
          (λ (s', w'). P w')
          (elim found [
            | none ↦ report_change sur created path pair s w
            | some (stored, seen) ↦
                if ltb stored timestamp
                then report_change sur modified path pair s w
                else returns (s, w)
          ])
  reported-Ensures none path timestamp pair s w h = report_change-Ensures created path pair s w h
  reported-Ensures (some (stored, seen)) path timestamp pair s w h =
      if-Ensures _ (ltb stored timestamp) _ _ (report_change-Ensures modified path pair s w h) h

  scan_file-Ensures :
      (total : Bool) (path : FilePath) (timestamp : ℕ) (s : Sweeper) (w : W)
      → P w
      → Ensures (λ (s', w'). P w') (scan_file sur total path timestamp s w)
  unfolding scan_file
  scan_file-Ensures total path timestamp s w h =
      >>=-Ensures (λ (s', w'). P w') _ _ _
        (reported-Ensures (Dict.lookup path (stamps_of total s)) path timestamp
          (timestamp, s.iteration) s w h)
        (λ (s', w') h'. h')

  judge_file-Ensures :
      (path : FilePath) (pair : ℕ × ℕ) (now : ℕ) (s : Sweeper) (j : Judged sur)
      → P j.world
      → Ensures (λ j'. P j'.world) (judge_file sur path pair now s j)
  unfolding judge_file
  judge_file-Ensures path (timestamp, seen) now s j h =
      if-Ensures _ (not (eqb seen s.iteration)) _ _
        (>>=-Ensures P _ _ _ (acts (deleted path) j.world h) (λ w h'. h'))
        (if-Ensures _ (is_old now timestamp) _ _
          (>>=-Ensures P _ _ _
            (if-Ensures P (is_tracked (Dict.lookup path s.fast_track_timestamps)) _ _
              (acts (unfast_tracked path) j.world h) h)
            (λ w h'. h'))
          h)

  judge-Ensures :
      (stamps : Stamps) (now : ℕ) (s : Sweeper) (j : Judged sur)
      → P j.world
      → Ensures (λ j'. P j'.world) (judge sur stamps now s j)
  unfolding judge
  judge-Ensures [] now s j h = h
  judge-Ensures ((path, pair) ∷ rest) now s j h =
      >>=-Ensures (λ (j' : Judged sur). P j'.world) _ _ _ (judge_file-Ensures path pair now s j h)
        (λ j' h'. judge-Ensures rest now s j' h')

  caught-Ensures :
      (total : Bool) (path : FilePath) (paths : List FilePath) (s : Sweeper) (w : W)
      (result : Outcome (Sweeper × W))
      → P w
      → Ensures (λ (s', w'). P w') result
      → ((s' : Sweeper) (w' : W)
          → P w'
          → Ensures (λ (c : Scanned sur). P c.world) (scan sur total paths s' w'))
      → Ensures
          (λ (c : Scanned sur). P c.world)
          (elim result [
            | returns (s', w') ↦ scan sur total paths s' w'
            | throws e ↦ catch_missing sur e path s w
            | undefined ↦ undefined
            | too_deep ↦ too_deep
          ])
  caught-Ensures total path paths s w (returns (s', w')) h h' rest = rest s' w' h'
  caught-Ensures total path paths s w (throws no_such_file) h h' rest = h
  caught-Ensures total path paths s w (throws e) h h' rest = tt
  caught-Ensures total path paths s w undefined h h' rest = tt
  caught-Ensures total path paths s w too_deep h h' rest = tt

  scan-Ensures :
      (total : Bool) (paths : List FilePath) (s : Sweeper) (w : W)
      → P w
      → Ensures (λ (c : Scanned sur). P c.world) (scan sur total paths s w)
  unfolding scan
  scan-Ensures total [] s w h = h
  scan-Ensures total (path ∷ paths) s w h =
      elim (sur.last_write path w)
        as (λ found.
          Ensures (λ (c : Scanned sur). P c.world)
            (elim found [
              | none ↦ returns (scanned sur s w (path ∷ []))
              | some timestamp ↦ elim (scan_file sur total path timestamp s w) [
                | returns (s', w') ↦ scan sur total paths s' w'
                | throws e ↦ catch_missing sur e path s w
                | undefined ↦ undefined
                | too_deep ↦ too_deep
              ]
            ])) [
              | none ↦ h
              | some timestamp ↦
                  caught-Ensures total path paths s w (scan_file sur total path timestamp s w) h
                    (scan_file-Ensures total path timestamp s w h)
                    (λ s' w' h'. scan-Ensures total paths s' w' h')
            ]

  -- A property of the surroundings that every callback preserves is preserved by a sweep.
  pub sweep-Ensures :
      (total : Bool) (s : Sweeper) (w : W) → P w → Ensures (λ (s', w'). P w') (sweep sur total s w)
  unfolding sweep
  sweep-Ensures total s w h =
      returned-Ensures (λ (s', w'). P w') _ _
        (λ paths.
          >>=-Ensures (λ (c : Scanned sur). P c.world) _ _ _ (scan-Ensures total paths s w h)
            (λ c h'.
              >>=-Ensures (λ (j : Judged sur). P j.world) _ _ _
                (judge-Ensures (stamps_of total c.sweeper) (sur.now c.world) c.sweeper
                  (record { world = c.world; removed = c.removed; slow = [] }) h')
                (λ j h''. h'')))
