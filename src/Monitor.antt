-- ===== src/Monitor.antt =====
-- monitor (monitor.hpp): a value behind a mutex, and the guards that its locks are held by.
pub mod Exclusion
use cpe400_peer_2_peer_file.Base.{
  ℕ, zero, suc, ◌+◌, ◌≤◌, Bool, true, false, ◌&&◌, not, List, [], ◌∷◌, ◌++◌, Option, none, some,
  if◌then◌else◌, ◌≡◌,
}

-- The mutex (std::shared_mutex). A lock that has to wait gives none, and so does a try that fails.
pub record SharedMutex (M : Type 0) : Type 0 where
  pub lock : M → Option M
  pub unlock : M → M
  pub lock_shared : M → Option M
  pub unlock_shared : M → M
  pub try_lock : M → Option M
  pub try_lock_shared : M → Option M
  -- How many hold it alone, and how many share it
  pub owners : M → ℕ × ℕ

-- What the standard promises of it. A try may also fail for no reason.
pub record IsSharedMutex {M : Type 0} (mutex : SharedMutex M) : Type 0 where
  pub lock_free : (m m' : M) → mutex.lock m ≡ some m' → mutex.owners m ≡ (0, 0)
  pub lock_held : (m m' : M) → mutex.lock m ≡ some m' → mutex.owners m' ≡ (1, 0)
  pub try_lock_free : (m m' : M) → mutex.try_lock m ≡ some m' → mutex.owners m ≡ (0, 0)
  pub try_lock_held : (m m' : M) → mutex.try_lock m ≡ some m' → mutex.owners m' ≡ (1, 0)
  pub unlock_free : (m : M) → mutex.owners m ≡ (1, 0) → mutex.owners (mutex.unlock m) ≡ (0, 0)
  pub lock_shared_free : (m m' : M) → mutex.lock_shared m ≡ some m' → (mutex.owners m).0 ≡ 0
  pub lock_shared_held :
      (m m' : M) → mutex.lock_shared m ≡ some m' → mutex.owners m' ≡ (0, (mutex.owners m).1 + 1)
  pub try_lock_shared_free : (m m' : M) → mutex.try_lock_shared m ≡ some m' → (mutex.owners m).0 ≡ 0
  pub try_lock_shared_held :
      (m m' : M) → mutex.try_lock_shared m ≡ some m' → mutex.owners m' ≡ (0, (mutex.owners m).1 + 1)
  pub unlock_shared_held :
      (m : M) (n : ℕ) → mutex.owners m ≡ (0, suc n) → mutex.owners (mutex.unlock_shared m) ≡ (0, n)

-- lock_unique or lock_shared. Its creator is the monitor or null; its lock owns the mutex or not.
pub record Guard : Type 0 where
  pub is_unique : Bool
  pub creator : Bool
  pub owns : Bool

-- has_lock, operator bool
abbrev pub has_lock : Guard → Bool
has_lock g = g.creator

-- The guard of a lock that was taken.
abbrev pub taken : Bool → Guard
taken unique = record { is_unique = unique; creator = true; owns = true }

-- The guard of a try that failed: null, with a deferred lock.
abbrev pub not_taken : Bool → Guard
not_taken unique = record { is_unique = unique; creator = false; owns = false }

-- The move constructor: the new guard, and what is left of the old one. Its creator is copied.
unfoldable pub move : Guard → Guard × Guard
move g = (
  record { is_unique = g.is_unique; creator = g.creator; owns = g.owns },
  record { is_unique = g.is_unique; creator = g.creator; owns = false },
)

pub record Monitor (T M : Type 0) : Type 0 where
  pub content : T
  pub mutex : M

-- A monitor and all guards that refer to it, in whatever threads.
pub record System (T M : Type 0) : Type 0 where
  pub monitor : Monitor T M
  pub guards : List Guard

module _ {T M : Type 0} (mutex : SharedMutex M) where
  abbrev locked : Bool → Monitor T M → Option M → Option (Monitor T M × Guard)
  locked unique monitor none = none
  locked unique monitor (some m) = some (record monitor { mutex = m }, taken unique)

  abbrev tried : Bool → Monitor T M → Option M → Monitor T M × Guard
  tried unique monitor none = (monitor, not_taken unique)
  tried unique monitor (some m) = (record monitor { mutex = m }, taken unique)

  -- write_lock and operator-> of a monitor that may be changed; none where it waits
  unfoldable pub write_lock : Monitor T M → Option (Monitor T M × Guard)
  write_lock monitor = locked true monitor (mutex.lock monitor.mutex)

  -- read_lock and operator-> of a constant monitor
  unfoldable pub read_lock : Monitor T M → Option (Monitor T M × Guard)
  read_lock monitor = locked false monitor (mutex.lock_shared monitor.mutex)

  unfoldable pub try_write_lock : Monitor T M → Monitor T M × Guard
  try_write_lock monitor = tried true monitor (mutex.try_lock monitor.mutex)

  unfoldable pub try_read_lock : Monitor T M → Monitor T M × Guard
  try_read_lock monitor = tried false monitor (mutex.try_lock_shared monitor.mutex)

  -- The end of a guard's life: its lock is released if it owns it.
  unfoldable pub release : Guard → Monitor T M → Monitor T M
  release g monitor =
      if g.owns
      then record monitor {
        mutex =
            if g.is_unique then mutex.unlock monitor.mutex else mutex.unlock_shared monitor.mutex;
      }
      else monitor

  pub data Step (s t : System T M) : Type 0 where
    write :
        {m : Monitor T M} {g : Guard}
        → write_lock s.monitor ≡ some (m, g)
        → t ≡ record { monitor = m; guards = g ∷ s.guards }
        → Step s t
    read :
        {m : Monitor T M} {g : Guard}
        → read_lock s.monitor ≡ some (m, g)
        → t ≡ record { monitor = m; guards = g ∷ s.guards }
        → Step s t
    try_write :
        t ≡ record {
          monitor = (try_write_lock s.monitor).0;
          guards = (try_write_lock s.monitor).1 ∷ s.guards;
        }
        → Step s t
    try_read :
        t ≡ record {
          monitor = (try_read_lock s.monitor).0;
          guards = (try_read_lock s.monitor).1 ∷ s.guards;
        }
        → Step s t
    pass_on :
        (before after : List Guard) (g : Guard)
        → s.guards ≡ before ++ g ∷ after
        → t ≡ record s { guards = (move g).0 ∷ before ++ (move g).1 ∷ after }
        → Step s t
    leave :
        (before after : List Guard) (g : Guard)
        → s.guards ≡ before ++ g ∷ after
        → t ≡ record { monitor = release g s.monitor; guards = before ++ after }
        → Step s t

  -- From a monitor that has no guards.
  pub data Reach (start : Monitor T M) : System T M → Type 0 where
    here : Reach start (record { monitor = start; guards = [] })
    next : {s t : System T M} → Reach start s → Step s t → Reach start t
