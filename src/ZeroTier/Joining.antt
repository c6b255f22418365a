-- ===== src/ZeroTier/Joining.antt =====
-- When setup of ZeroTierNode ends, and how the networks are counted.
use cpe400_peer_2_peer_file.Base.{
  ℕ, zero, suc, ◌+◌, ◌*◌, ◌%◌, ◌<◌, ◌≤◌, Bool, true, false, List, [], ◌∷◌, drop, length, ◌≡◌, refl,
  ap, ◌∙◌, arith,
}
use cpe400_peer_2_peer_file.Base.Outcome.{returns}
use cpe400_peer_2_peer_file.ZeroTier.{
  ServiceEvent, address_added, network_ready, network_down, node_online, node_offline, other_event,
  ServiceNode, on_event, on_events, has_joined, Calls, has_started, wait_until, setup,
}

module _ {Ip : Type 0} where
  -- How many networks get ready in some events, and how many go down.
  abbrev pub readies : List (ServiceEvent Ip) → ℕ
  readies [] = 0
  readies (address_added details ∷ es) = readies es
  readies (network_ready ∷ es) = readies es + 1
  readies (network_down ∷ es) = readies es
  readies (node_online ∷ es) = readies es
  readies (node_offline ∷ es) = readies es
  readies (other_event ∷ es) = readies es

  abbrev pub downs : List (ServiceEvent Ip) → ℕ
  downs [] = 0
  downs (address_added details ∷ es) = downs es
  downs (network_ready ∷ es) = downs es
  downs (network_down ∷ es) = downs es + 1
  downs (node_online ∷ es) = downs es
  downs (node_offline ∷ es) = downs es
  downs (other_event ∷ es) = downs es

  -- The count of joined networks is a byte: after any events it is the old count and the networks that
  -- got ready less those that went down, modulo 256. So a network that goes down without having been
  -- ready makes a count of 0 the largest one, 255.
  pub networks_joined_count-on_events :
      (es : List (ServiceEvent Ip)) (n : ServiceNode Ip)
      → n.networks_joined_count < 256
      → (on_events es n).networks_joined_count
        ≡ (n.networks_joined_count + readies es + 255 * downs es) % 256
  unfolding on_events on_event
  networks_joined_count-on_events [] n h = omega (arith, h)
  networks_joined_count-on_events (address_added details ∷ es) n h =
      networks_joined_count-on_events es (on_event (address_added details) n) h
  networks_joined_count-on_events (network_ready ∷ es) n h =
      omega (arith, h, networks_joined_count-on_events es (on_event network_ready n) (omega arith))
  networks_joined_count-on_events (network_down ∷ es) n h =
      omega (arith, h, networks_joined_count-on_events es (on_event network_down n) (omega arith))
  networks_joined_count-on_events (node_online ∷ es) n h =
      networks_joined_count-on_events es (on_event node_online n) h
  networks_joined_count-on_events (node_offline ∷ es) n h =
      networks_joined_count-on_events es (on_event node_offline n) h
  networks_joined_count-on_events (other_event ∷ es) n h = networks_joined_count-on_events es n h

  -- The node after some sleeps.
  abbrev pub after : ℕ → List (List (ServiceEvent Ip)) → ServiceNode Ip → ServiceNode Ip
  after zero sleeps n = n
  after (suc k) [] n = n
  after (suc k) (events ∷ sleeps) n = after k sleeps (on_events events n)

  wait_until-after :
      (holds : ServiceNode Ip → Bool) (k : ℕ) (sleeps : List (List (ServiceEvent Ip)))
      (n : ServiceNode Ip)
      → k ≤ length sleeps
      → holds (after k sleeps n) ≡ true
      → ((j : ℕ) → j < k → holds (after j sleeps n) ≡ false)
      → wait_until holds sleeps n ≡ returns (after k sleeps n, drop k sleeps)
  unfolding wait_until
  wait_until-after holds zero [] n h good bad = rw good refl
  wait_until-after holds zero (events ∷ sleeps) n h good bad = rw good refl
  wait_until-after holds (suc k) [] n h good bad = absurd (omega (arith, h))
  wait_until-after holds (suc k) (events ∷ sleeps) n h good bad =
      rw
        (
          bad 0 (omega arith),
          wait_until-after holds k sleeps (on_events events n) (omega (arith, h)) good
              (λ j less. bad (suc j) (omega (arith, less))),
        )
        refl

  after-after :
      (i j : ℕ) (sleeps : List (List (ServiceEvent Ip))) (n : ServiceNode Ip)
      → i ≤ length sleeps
      → after j (drop i sleeps) (after i sleeps n) ≡ after (i + j) sleeps n
  after-after zero j sleeps n h = let e : j ≡ 0 + j = omega arith in ap (λ k. after k sleeps n) e
  after-after (suc i) j [] n h = absurd (omega (arith, h))
  after-after (suc i) j (events ∷ sleeps) n h =
      let e : suc (i + j) ≡ suc i + j = omega arith in
      after-after i j sleeps (on_events events n) (omega (arith, h))
      ∙ ap (λ k. after k (events ∷ sleeps) n) e

  -- If all calls succeed, the node is online for the first time after i sleeps, and from then on a
  -- network counts as joined for the first time after j more of them, setup ends after i + j sleeps.
  pub setup_joins :
      (calls : Calls) (i j : ℕ) (sleeps : List (List (ServiceEvent Ip))) (n : ServiceNode Ip)
      → has_started calls ≡ true
      → calls.join ≡ true
      → i ≤ length sleeps
      → (after i sleeps n).online ≡ true
      → ((k : ℕ) → k < i → (after k sleeps n).online ≡ false)
      → j ≤ length (drop i sleeps)
      → has_joined (after j (drop i sleeps) (after i sleeps n)) ≡ true
      → ((k : ℕ) → k < j → has_joined (after k (drop i sleeps) (after i sleeps n)) ≡ false)
      → setup calls sleeps n ≡ returns (after (i + j) sleeps n)
  unfolding setup
  setup_joins calls i j sleeps n started joins hi online offline hj joined apart =
      rw
        (
          started,
          wait_until-after (λ m. m.online) i sleeps n hi online offline,
          joins,
          wait_until-after has_joined j (drop i sleeps) (after i sleeps n) hj joined apart,
        )
        (ap returns (after-after i j sleeps n hi))
