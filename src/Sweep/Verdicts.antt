-- ===== src/Sweep/Verdicts.antt =====
-- What is reported of the tracked files after a scan, and which of them are to be erased.
use cpe400_peer_2_peer_file.Base.{
  ℕ, Bool, false, none, Option, inl, inr, Bool-cases, ◌==◌, not, ◌&&◌, List, [], ◌∷◌, ◌++◌, some,
  path_eq, eqb, if◌then◌else◌, ◌≡◌, refl, arith, append_assoc, append-nil,
}
use cpe400_peer_2_peer_file.Base.Outcome.{returns}
use cpe400_peer_2_peer_file.Base.Dict
use cpe400_peer_2_peer_file.Base.Dict.{lookup-insert}
use cpe400_peer_2_peer_file.Paths.{FilePath}
use cpe400_peer_2_peer_file.Sweep.{
  Event, deleted, unfast_tracked, Stamps, Sweeper, is_tracked, is_old, Judged, judge_file, judge,
}
use cpe400_peer_2_peer_file.Sweep.Reports.{recorder}
use cpe400_peer_2_peer_file.Sweep.Keys.{member, Absent, Absent-same, IsUnique, gone}

abbrev pub concat_map {ℓ} : {A : Type ℓ} → (A → List Event) → List A → List Event
concat_map f [] = []
concat_map f (x ∷ xs) = f x ++ concat_map f xs

-- What is to be reported of a tracked file after the scan: its deletion if the scan did not see it,
-- and otherwise that it is fast tracked no longer, if it was and it is old.
abbrev pub verdict : Stamps → ℕ → ℕ → FilePath × (ℕ × ℕ) → List Event
verdict fast iteration now (path, (timestamp, seen)) =
    if not (eqb seen iteration)
    then deleted path ∷ []
    else if is_old now timestamp
    then (if is_tracked (Dict.lookup path fast) then unfast_tracked path ∷ [] else [])
    else []

abbrev pub slowed : ℕ → ℕ → Stamps → List FilePath
slowed iteration now [] = []
slowed iteration now ((path, (timestamp, seen)) ∷ rest) =
    if eqb seen iteration && is_old now timestamp
    then path ∷ slowed iteration now rest
    else slowed iteration now rest

abbrev pub is_slow : ℕ → ℕ → Option (ℕ × ℕ) → Bool
is_slow iteration now none = false
is_slow iteration now (some (timestamp, seen)) = eqb seen iteration && is_old now timestamp

member-slowed-Absent :
    (iteration now : ℕ) (stamps : Stamps) (q : FilePath)
    → Absent q stamps
    → member q (slowed iteration now stamps) ≡ false
member-slowed-Absent iteration now [] q h = refl
member-slowed-Absent iteration now ((path, (timestamp, seen)) ∷ rest) q h =
    ground (arith, member-slowed-Absent iteration now rest q h.1, h.0)

-- Of unique stamps, those whose own stamp is seen and old.
pub member-slowed :
    (iteration now : ℕ) (stamps : Stamps) (q : FilePath)
    → IsUnique stamps
    → member q (slowed iteration now stamps) ≡ is_slow iteration now (Dict.lookup q stamps)
unfolding Dict.lookup
member-slowed iteration now [] q h = refl
member-slowed iteration now ((path, (timestamp, seen)) ∷ rest) q h = elim (Bool-cases (q == path)) [
  | inl same ↦
      ground (arith, member-slowed-Absent iteration now rest q (Absent-same path q rest same h.0))
  | inr other ↦ ground (arith, member-slowed iteration now rest q h.1)
]

module _ (times : FilePath → ℕ) where
  module _ (paths : List FilePath) (time : ℕ) where
    judge_file-verdict :
        (entry : FilePath × (ℕ × ℕ)) (now : ℕ) (s : Sweeper)
        (j : Judged (recorder (λ q. some (times q)) paths time))
        → judge_file (recorder (λ q. some (times q)) paths time) entry.0 entry.1 now s j
          ≡ returns (record {
            world = j.world ++ verdict s.fast_track_timestamps s.iteration now entry;
            removed = j.removed ++ gone s.iteration (entry ∷ []);
            slow = j.slow ++ slowed s.iteration now (entry ∷ []);
          })
    unfolding judge_file
    judge_file-verdict entry now s j =
        ground (arith, append-nil j.world, append-nil j.removed, append-nil j.slow)

    gone-cons :
        (iteration : ℕ) (entry : FilePath × (ℕ × ℕ)) (rest : Stamps)
        → gone iteration (entry ∷ rest) ≡ gone iteration (entry ∷ []) ++ gone iteration rest
    gone-cons iteration entry rest = ground arith

    slowed-cons :
        (iteration now : ℕ) (entry : FilePath × (ℕ × ℕ)) (rest : Stamps)
        → slowed iteration now (entry ∷ rest)
          ≡ slowed iteration now (entry ∷ []) ++ slowed iteration now rest
    slowed-cons iteration now entry rest = ground arith

    pub judge-verdict :
        (stamps : Stamps) (now : ℕ) (s : Sweeper)
        (j : Judged (recorder (λ q. some (times q)) paths time))
        → judge (recorder (λ q. some (times q)) paths time) stamps now s j
          ≡ returns (record {
            world = j.world ++ concat_map (verdict s.fast_track_timestamps s.iteration now) stamps;
            removed = j.removed ++ gone s.iteration stamps;
            slow = j.slow ++ slowed s.iteration now stamps;
          })
    unfolding judge judge_file
    judge-verdict [] now s j = rw (append-nil j.world, append-nil j.removed, append-nil j.slow) refl
    judge-verdict ((path, (timestamp, seen)) ∷ rest) now s j =
        let entry : FilePath × (ℕ × ℕ) = (path, (timestamp, seen)) in
        let fast = s.fast_track_timestamps in
        let j' : Judged (recorder (λ q. some (times q)) paths time) = record {
          world = j.world ++ verdict fast s.iteration now entry;
          removed = j.removed ++ gone s.iteration (entry ∷ []);
          slow = j.slow ++ slowed s.iteration now (entry ∷ []);
        } in
        rw (judge_file-verdict entry now s j, judge-verdict rest now s j')
          (ground (
            arith,
            gone-cons s.iteration entry rest,
            slowed-cons s.iteration now entry rest,
            append_assoc j.world (verdict fast s.iteration now entry)
                (concat_map (verdict fast s.iteration now) rest),
            append_assoc j.removed (gone s.iteration (entry ∷ [])) (gone s.iteration rest),
            append_assoc j.slow (slowed s.iteration now (entry ∷ [])) (slowed s.iteration now rest),
          ))
