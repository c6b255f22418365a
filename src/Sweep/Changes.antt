-- ===== src/Sweep/Changes.antt =====
-- What a total sweep reports, where every file that is enumerated is there.
use cpe400_peer_2_peer_file.Base.{
  ℕ, ◌+◌, ◌%◌, Bool, true, false, ◌&&◌, List, [], ◌∷◌, ◌++◌, Option, none, some, path_eq,
  if◌then◌else◌, ◌≡◌, refl, sym, ap, subst, ◌∙◌, arith, append_assoc,
}
use cpe400_peer_2_peer_file.Base.Outcome.{returns}
use cpe400_peer_2_peer_file.Base.Dict
use cpe400_peer_2_peer_file.Text.{size_t_mod}
use cpe400_peer_2_peer_file.Paths.{FilePath}
use cpe400_peer_2_peer_file.Sweep.{
  Event, Stamps, Sweeper, is_tracked, put, erase_all, is_old, sweep,
}
use cpe400_peer_2_peer_file.Sweep.Reports.{recorder, Unseen}
use cpe400_peer_2_peer_file.Sweep.Keys.{
  member, IsUnique, IsUnique-put, lookup-erase_all, gone, is_stale, member-gone,
}
use cpe400_peer_2_peer_file.Sweep.Verdicts.{
  concat_map, verdict, slowed, is_slow, member-slowed, judge-verdict,
}
use cpe400_peer_2_peer_file.Sweep.Scanning.{
  Distinct, is_changed, changes, after_file, after_files, scan-total, lookup-after_files,
  fast-after_files, iteration-after_files,
}

Unseen-lookup :
    (iteration : ℕ) (stamps : Stamps) (q : FilePath)
    → Unseen iteration stamps
    → is_stale iteration (Dict.lookup q stamps) ≡ is_tracked (Dict.lookup q stamps)
unfolding Dict.lookup
Unseen-lookup iteration [] q h = refl
Unseen-lookup iteration ((path, (timestamp, seen)) ∷ rest) q h =
    ground (arith, h.0, Unseen-lookup iteration rest q h.1)

stale-slow :
    (iteration now : ℕ) (stamp : Option (ℕ × ℕ))
    → is_stale iteration stamp ≡ is_tracked stamp
    → is_slow iteration now stamp ≡ false
stale-slow iteration now none h = refl
stale-slow iteration now (some (timestamp, seen)) h = ground arith

-- What is left of the fast track.
fast-after_sweep :
    (iteration now time : ℕ) (final fast old : Stamps) (here : Bool) (q : FilePath)
    → IsUnique final
    → Dict.lookup q final ≡ (if here then some (time, iteration) else Dict.lookup q old)
    → is_stale iteration (Dict.lookup q old) ≡ is_tracked (Dict.lookup q old)
    → Dict.lookup q (erase_all (slowed iteration now final) (erase_all (gone iteration final) fast))
      ≡ (if here
          then if is_old now time then none else Dict.lookup q fast
          else if is_tracked (Dict.lookup q old)
          then none
          else Dict.lookup q fast)
fast-after_sweep iteration now time final fast old here q unique look unseen = ground (
  arith,
  lookup-erase_all (slowed iteration now final) (erase_all (gone iteration final) fast) q,
  lookup-erase_all (gone iteration final) fast q,
  member-gone iteration final q unique,
  member-slowed iteration now final q unique,
  look,
  unseen,
  stale-slow iteration now (Dict.lookup q old),
)

module _ (times : FilePath → ℕ) where
  IsUnique-after_files :
      (ps : List FilePath) (s : Sweeper)
      → IsUnique s.timestamps
      → IsUnique (after_files times ps s).timestamps
  IsUnique-after_files [] s h = h
  IsUnique-after_files (p ∷ ps) s h =
      IsUnique-after_files ps (after_file times s p)
        (IsUnique-put p (times p, s.iteration) s.timestamps h)

  -- The stamps of a total sweep when it has seen these files.
  abbrev pub seen_files : List FilePath → ℕ → Stamps → Stamps
  seen_files [] iteration stamps = stamps
  seen_files (p ∷ ps) iteration stamps = seen_files ps iteration (put p (times p, iteration) stamps)

  seen_files-after_files :
      (ps : List FilePath) (s : Sweeper)
      → (after_files times ps s).timestamps ≡ seen_files ps s.iteration s.timestamps
  seen_files-after_files [] s = refl
  seen_files-after_files (p ∷ ps) s = seen_files-after_files ps (after_file times s p)

  -- A total sweep reports of each file, in order, its creation or change, and then goes through the
  -- stamps of the files that were tracked or are there now, one for each file, for its verdicts. The
  -- fast track that these look at has the files that are new or changed. After the sweep, exactly the
  -- files that are there are tracked, with their times and this iteration; of the files that are
  -- there, those that are not old stay on the fast track, and those that are gone leave it.
  abbrev pub Reports : List FilePath → ℕ → Sweeper → List Event → Type 0
  Reports files now s events =
      let final = seen_files files s.iteration s.timestamps in
      (s' : Sweeper) × (fast : Stamps) × (sweep (recorder (λ q. some (times q)) files now) true s
          events
        ≡ returns (
          s',
          events
              ++ (concat_map (changes times s) files
                  ++ concat_map (verdict fast s.iteration now) final),
        ))
      × ((q : FilePath)
          → Dict.lookup q fast ≡ (
              if member q files && is_changed times (Dict.lookup q s.timestamps) q
              then some (times q, s.iteration)
              else Dict.lookup q s.fast_track_timestamps))
      × IsUnique final
      × ((q : FilePath)
          → Dict.lookup q final
            ≡ (if member q files then some (times q, s.iteration) else Dict.lookup q s.timestamps))
      × ((q : FilePath)
          → Dict.lookup q s'.timestamps
            ≡ (if member q files then some (times q, s.iteration) else none))
      × ((q : FilePath)
          → Dict.lookup q s'.fast_track_timestamps ≡ (
              if member q files
              then if is_old now (times q) then none else Dict.lookup q fast
              else if is_tracked (Dict.lookup q s.timestamps)
              then none
              else Dict.lookup q fast))

  -- A total sweep of files that are all there, each of them once, where no stamp is of this iteration
  -- and each file has one stamp: it reports of each file, in order, its creation or change; then, going
  -- once through the files that were tracked or are there now, the deletion of those that are not
  -- there, and the end of the fast track of those that are, are on it and are old. After it,
  -- exactly the files that are there are tracked, with their times and this iteration; of the files
  -- that are there, those that are old are off the fast track, as are those that are gone, and nothing
  -- else has left it.
  pub sweep-Reports :
      (files : List FilePath) (now : ℕ) (s : Sweeper) (events : List Event)
      → Distinct files
      → IsUnique s.timestamps
      → Unseen s.iteration s.timestamps
      → Reports files now s events
  unfolding sweep
  sweep-Reports files now s events distinct unique unseen =
      let c = after_files times files s in
      let same = iteration-after_files times files now files s in
      let final = seen_files files s.iteration s.timestamps in
      let is_final = seen_files-after_files files s in
      let look : (q : FilePath)
          → Dict.lookup q final
            ≡ (if member q files then some (times q, s.iteration) else Dict.lookup q s.timestamps) =
        λ q. ap (Dict.lookup q) (sym is_final) ∙ lookup-after_files times files now files s q in
      let one_each : IsUnique final =
        subst IsUnique is_final (IsUnique-after_files files s unique) in
      (
        record {
          timestamps = erase_all (gone s.iteration final) final;
          fast_track_timestamps =
              erase_all (slowed s.iteration now final)
                (erase_all (gone s.iteration final) c.fast_track_timestamps);
          iteration = (s.iteration + 1) % size_t_mod;
        },
        c.fast_track_timestamps,
        rw
            (
              scan-total times files now files s events distinct,
              is_final,
              judge-verdict times files now final now c (record {
                world = events ++ concat_map (changes times s) files;
                removed = [];
                slow = [];
              }),
              same,
              append_assoc events (concat_map (changes times s) files)
                  (concat_map (verdict c.fast_track_timestamps s.iteration now) final),
            )
            refl,
        λ q. fast-after_files times files now files s q distinct,
        one_each,
        look,
        λ q. ground (
          arith,
          look q,
          lookup-erase_all (gone s.iteration final) final q,
          member-gone s.iteration final q one_each,
          Unseen-lookup s.iteration s.timestamps q unseen,
        ),
        λ q.
            fast-after_sweep s.iteration now (times q) final c.fast_track_timestamps s.timestamps
              (member q files) q one_each (look q)
              (Unseen-lookup s.iteration s.timestamps q unseen),
      )
