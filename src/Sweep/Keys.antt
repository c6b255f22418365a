-- ===== src/Sweep/Keys.antt =====
-- Stamps with one entry for each file.
use cpe400_peer_2_peer_file.Base.{
  ℕ, Bool, true, false, not, List, [], ◌∷◌, any, Option, none, some, path_eq, ◌==◌, eqb,
  if◌then◌else◌, ◌≡◌, refl, sym, ◌≢◌, All, arith, Bool-cases, inl, inr,
}
use cpe400_peer_2_peer_file.Base.Dict
use cpe400_peer_2_peer_file.Base.Dict.{lookup-erase}
use cpe400_peer_2_peer_file.Paths.{FilePath}
use cpe400_peer_2_peer_file.Sweep.{Stamps, path_before, place, put, erase_all}

abbrev pub member : FilePath → List FilePath → Bool
member q = any (λ p. q == p)

abbrev pub Absent : FilePath → Stamps → Type 0
Absent q = All (λ e. e.0 ≢ q)

abbrev pub IsUnique : Stamps → Type 0
IsUnique [] = Unit {0}
IsUnique (e ∷ stamps) = Absent e.0 stamps × IsUnique stamps

Absent-place :
    (q k : FilePath) (v : ℕ × ℕ) (stamps : Stamps)
    → k ≢ q
    → Absent q stamps
    → Absent q (place k v stamps)
unfolding place
Absent-place q k v [] differ h = (differ, tt)
Absent-place q k v (e ∷ rest) differ h = elim (Bool-cases (path_before k e.0)) [
  | inl before ↦ rw before (differ, h)
  | inr after ↦ rw after (h.0, Absent-place q k v rest differ h.1)
]

Absent-erase : (q k : FilePath) (stamps : Stamps) → Absent q stamps → Absent q (Dict.erase k stamps)
unfolding Dict.erase
Absent-erase q k [] h = tt
Absent-erase q k ((j, w) ∷ rest) h = elim (Bool-cases (k == j)) [
  | inl same ↦ rw same (Absent-erase q k rest h.1)
  | inr other ↦ rw other (h.0, Absent-erase q k rest h.1)
]

Absent-erased : (k : FilePath) (stamps : Stamps) → Absent k (Dict.erase k stamps)
unfolding Dict.erase
Absent-erased k [] = tt
Absent-erased k ((j, w) ∷ rest) = elim (Bool-cases (k == j)) [
  | inl same ↦ rw same (Absent-erased k rest)
  | inr other ↦ rw other (ground arith, Absent-erased k rest)
]

IsUnique-erase : (k : FilePath) (stamps : Stamps) → IsUnique stamps → IsUnique (Dict.erase k stamps)
unfolding Dict.erase
IsUnique-erase k [] h = tt
IsUnique-erase k ((j, w) ∷ rest) h = elim (Bool-cases (k == j)) [
  | inl same ↦ rw same (IsUnique-erase k rest h.1)
  | inr other ↦ rw other (Absent-erase j k rest h.0, IsUnique-erase k rest h.1)
]

IsUnique-place :
    (k : FilePath) (v : ℕ × ℕ) (stamps : Stamps)
    → Absent k stamps
    → IsUnique stamps
    → IsUnique (place k v stamps)
unfolding place
IsUnique-place k v [] new h = (tt, tt)
IsUnique-place k v (e ∷ rest) new h = elim (Bool-cases (path_before k e.0)) [
  | inl before ↦ rw before (new, h)
  | inr after ↦
      rw after (
        Absent-place e.0 k v rest (λ same. new.0 (sym same)) h.0,
        IsUnique-place k v rest new.1 h.1,
      )
]

pub IsUnique-put :
    (k : FilePath) (v : ℕ × ℕ) (stamps : Stamps) → IsUnique stamps → IsUnique (put k v stamps)
unfolding put
IsUnique-put k v stamps h =
    IsUnique-place k v (Dict.erase k stamps) (Absent-erased k stamps) (IsUnique-erase k stamps h)

lookup-place :
    (q k : FilePath) (v : ℕ × ℕ) (stamps : Stamps)
    → Absent k stamps
    → Dict.lookup q (place k v stamps) ≡ (if q == k then some v else Dict.lookup q stamps)
unfolding place Dict.lookup
lookup-place q k v [] new = ground arith
lookup-place q k v ((j, w) ∷ rest) new = ground (arith, lookup-place q k v rest new.1, new.0)

pub lookup-put :
    (q k : FilePath) (v : ℕ × ℕ) (stamps : Stamps)
    → Dict.lookup q (put k v stamps) ≡ (if q == k then some v else Dict.lookup q stamps)
unfolding put
lookup-put q k v stamps = ground (
  arith,
  lookup-place q k v (Dict.erase k stamps) (Absent-erased k stamps),
  lookup-erase q k stamps,
)

pub Absent-same :
    (j k : FilePath) (stamps : Stamps) → (k == j) ≡ true → Absent j stamps → Absent k stamps
Absent-same j k [] same h = tt
Absent-same j k (e ∷ stamps) same h = (ground arith, Absent-same j k stamps same h.1)

pub lookup-erase_all :
    (ps : List FilePath) (stamps : Stamps) (q : FilePath)
    → Dict.lookup q (erase_all ps stamps) ≡ (if member q ps then none else Dict.lookup q stamps)
unfolding erase_all
lookup-erase_all [] stamps q = refl
lookup-erase_all (p ∷ ps) stamps q =
    ground (arith, lookup-erase_all ps (Dict.erase p stamps) q, lookup-erase q p stamps)

-- The files whose stamp is not of an iteration.
abbrev pub gone : ℕ → Stamps → List FilePath
gone iteration [] = []
gone iteration ((path, (timestamp, seen)) ∷ rest) =
    if not (eqb seen iteration) then path ∷ gone iteration rest else gone iteration rest

abbrev pub is_stale : ℕ → Option (ℕ × ℕ) → Bool
is_stale iteration none = false
is_stale iteration (some (timestamp, seen)) = not (eqb seen iteration)

member-gone-Absent :
    (iteration : ℕ) (stamps : Stamps) (q : FilePath)
    → Absent q stamps
    → member q (gone iteration stamps) ≡ false
member-gone-Absent iteration [] q h = refl
member-gone-Absent iteration ((path, (timestamp, seen)) ∷ rest) q h =
    ground (arith, member-gone-Absent iteration rest q h.1, h.0)

-- Of unique stamps, those whose own stamp is stale.
pub member-gone :
    (iteration : ℕ) (stamps : Stamps) (q : FilePath)
    → IsUnique stamps
    → member q (gone iteration stamps) ≡ is_stale iteration (Dict.lookup q stamps)
unfolding Dict.lookup
member-gone iteration [] q h = refl
member-gone iteration ((path, (timestamp, seen)) ∷ rest) q h = elim (Bool-cases (q == path)) [
  | inl same ↦
      ground (arith, member-gone-Absent iteration rest q (Absent-same path q rest same h.0))
  | inr other ↦ ground (arith, member-gone iteration rest q h.1)
]
