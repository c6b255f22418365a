-- ===== src/Monitor/Exclusion.antt =====
-- Who holds a monitor in the states that can be reached.
use cpe400_peer_2_peer_file.Base.{
  ℕ, ◌+◌, Bool, true, false, List, [], ◌∷◌, ◌++◌, some, if◌then◌else◌, ◌≡◌, sym, subst, ◌⊎◌, inl,
  inr, Option-cases, arith,
}
use cpe400_peer_2_peer_file.Monitor.{
  SharedMutex, IsSharedMutex, Guard, move, taken, not_taken, Monitor, write_lock, read_lock,
  try_write_lock, try_read_lock, release, System, Step, write, read, try_write, try_read, pass_on,
  leave, Reach, here, next,
}

abbrev holds : Bool → Guard → ℕ
holds unique g =
    if g.owns
    then (if unique then (if g.is_unique then 1 else 0) else (if g.is_unique then 0 else 1))
    else 0

-- How many guards own the mutex alone (true), and how many share it (false).
abbrev pub holders : Bool → List Guard → ℕ
holders unique [] = 0
holders unique (g ∷ guards) = holds unique g + holders unique guards

holders-append :
    (unique : Bool) (xs ys : List Guard)
    → holders unique (xs ++ ys) ≡ holders unique xs + holders unique ys
holders-append unique [] ys = omega arith
holders-append unique (g ∷ xs) ys = omega (arith, holders-append unique xs ys)

module _ {T M : Type 0} (mutex : SharedMutex M) (law : IsSharedMutex mutex) where
  pub record Inv (s : System T M) : Type 0 where
    pub alone : (mutex.owners s.monitor.mutex).0 ≡ holders true s.guards
    pub shared : (mutex.owners s.monitor.mutex).1 ≡ holders false s.guards
    pub apart :
        (holders true s.guards ≡ 0) ⊎ ((holders true s.guards ≡ 1) × (holders false s.guards ≡ 0))

  -- A lock that is taken finds no other owner, and one that is shared no owner alone.
  write-Inv :
      (s : System T M) (m : M)
      → mutex.owners s.monitor.mutex ≡ (0, 0)
      → mutex.owners m ≡ (1, 0)
      → Inv s
      → Inv (record { monitor = record s.monitor { mutex = m }; guards = taken true ∷ s.guards })
  write-Inv s m free held inv = ground arith

  read-Inv :
      (s : System T M) (m : M)
      → (mutex.owners s.monitor.mutex).0 ≡ 0
      → mutex.owners m ≡ (0, (mutex.owners s.monitor.mutex).1 + 1)
      → Inv s
      → Inv (record { monitor = record s.monitor { mutex = m }; guards = taken false ∷ s.guards })
  read-Inv s m free held inv = ground arith

  fail-Inv :
      (s : System T M) (unique : Bool)
      → Inv s
      → Inv (record s { guards = not_taken unique ∷ s.guards })
  fail-Inv s unique inv = ground arith

  -- Where the lock does not wait, or the try does not fail.
  locked-Inv :
      (s t : System T M)
      → Inv s
      → (m : Monitor T M) (g : Guard) → write_lock mutex s.monitor ≡ some (m, g)
      → t ≡ record { monitor = m; guards = g ∷ s.guards }
      → Inv t
  unfolding write_lock
  locked-Inv s t inv m g e is = elim (Option-cases (mutex.lock s.monitor.mutex)) [
    | inl busy ↦ absurd (ground arith)
    | inr (m', free) ↦ subst Inv (ground arith) (
        write-Inv s m' (law.lock_free s.monitor.mutex m' free)
          (law.lock_held s.monitor.mutex m' free) inv)
  ]

  locked_shared-Inv :
      (s t : System T M)
      → Inv s
      → (m : Monitor T M) (g : Guard) → read_lock mutex s.monitor ≡ some (m, g)
      → t ≡ record { monitor = m; guards = g ∷ s.guards }
      → Inv t
  unfolding read_lock
  locked_shared-Inv s t inv m g e is = elim (Option-cases (mutex.lock_shared s.monitor.mutex)) [
    | inl busy ↦ absurd (ground arith)
    | inr (m', free) ↦ subst Inv (ground arith) (
        read-Inv s m' (law.lock_shared_free s.monitor.mutex m' free)
          (law.lock_shared_held s.monitor.mutex m' free) inv)
  ]

  tried-Inv :
      (s : System T M)
      → Inv s
      → Inv (record {
        monitor = (try_write_lock mutex s.monitor).0;
        guards = (try_write_lock mutex s.monitor).1 ∷ s.guards;
      })
  unfolding try_write_lock
  tried-Inv s inv = elim (Option-cases (mutex.try_lock s.monitor.mutex)) [
    | inl busy ↦ rw busy (fail-Inv s true inv)
    | inr (m', free) ↦ rw free (
        write-Inv s m' (law.try_lock_free s.monitor.mutex m' free)
          (law.try_lock_held s.monitor.mutex m' free) inv)
  ]

  tried_shared-Inv :
      (s : System T M)
      → Inv s
      → Inv (record {
        monitor = (try_read_lock mutex s.monitor).0;
        guards = (try_read_lock mutex s.monitor).1 ∷ s.guards;
      })
  unfolding try_read_lock
  tried_shared-Inv s inv = elim (Option-cases (mutex.try_lock_shared s.monitor.mutex)) [
    | inl busy ↦ rw busy (fail-Inv s false inv)
    | inr (m', free) ↦ rw free (
        read-Inv s m' (law.try_lock_shared_free s.monitor.mutex m' free)
          (law.try_lock_shared_held s.monitor.mutex m' free) inv)
  ]

  moved-Inv :
      (s : System T M) (before after : List Guard) (g : Guard)
      → s.guards ≡ before ++ g ∷ after
      → Inv s
      → Inv (record s { guards = (move g).0 ∷ before ++ (move g).1 ∷ after })
  unfolding move
  moved-Inv s before after g e inv = ground (
    arith,
    holders-append true before (g ∷ after),
    holders-append false before (g ∷ after),
    holders-append true before ((move g).1 ∷ after),
    holders-append false before ((move g).1 ∷ after),
  )

  left-Inv :
      (s : System T M) (before after : List Guard) (g : Guard)
      → s.guards ≡ before ++ g ∷ after
      → Inv s
      → Inv (record { monitor = release mutex g s.monitor; guards = before ++ after })
  unfolding release
  left-Inv s before after g e inv = ground (
    arith,
    holders-append true before (g ∷ after),
    holders-append false before (g ∷ after),
    holders-append true before after,
    holders-append false before after,
    law.unlock_free s.monitor.mutex,
    law.unlock_shared_held s.monitor.mutex (holders false (before ++ after)),
  )

  Step-Inv : (s t : System T M) → Step mutex s t → Inv s → Inv t
  Step-Inv s t (write e is) inv = locked-Inv s t inv _ _ e is
  Step-Inv s t (read e is) inv = locked_shared-Inv s t inv _ _ e is
  Step-Inv s t (try_write is) inv = subst Inv (sym is) (tried-Inv s inv)
  Step-Inv s t (try_read is) inv = subst Inv (sym is) (tried_shared-Inv s inv)
  Step-Inv s t (pass_on before after g e is) inv =
      subst Inv (sym is) (moved-Inv s before after g e inv)
  Step-Inv s t (leave before after g e is) inv =
      subst Inv (sym is) (left-Inv s before after g e inv)

  Reach-Inv :
      {start : Monitor T M} {s : System T M}
      → mutex.owners start.mutex ≡ (0, 0)
      → Reach mutex start s
      → Inv s
  Reach-Inv free here = ground arith
  Reach-Inv free (next {s} {t} r step) = Step-Inv s t step (Reach-Inv free r)

  -- In every state that can be reached from a mutex that nobody owns, by locks, tries, moves and the
  -- ends of guards, at most one guard owns it alone, and where one does, no guard shares it.
  pub mutual_exclusion :
      {start : Monitor T M} {s : System T M}
      → mutex.owners start.mutex ≡ (0, 0)
      → Reach mutex start s
      → (holders true s.guards ≡ 0) ⊎ ((holders true s.guards ≡ 1) × (holders false s.guards ≡ 0))
  mutual_exclusion free r = (Reach-Inv free r).apart
