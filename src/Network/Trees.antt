-- ===== src/Network/Trees.antt =====
-- A broadcast in a network whose links are a tree.
use cpe400_peer_2_peer_file.Base.{
  ℕ, suc, ◌+◌, ◌≤◌, true, false, List, [], ◌∷◌, ◌++◌, map, some, Eq, ◌==◌, if◌then◌else◌, length,
  ◌≡◌, refl, sym, ap, ◌∙◌, subst, arith, append_assoc, append-nil,
}
use cpe400_peer_2_peer_file.Base.Outcome.{returns, ◌>>=◌}
use cpe400_peer_2_peer_file.Platform.{Platform, IsLawful}
use cpe400_peer_2_peer_file.Messages.{Message}
use cpe400_peer_2_peer_file.Messages.Archive.{Archive}
use cpe400_peer_2_peer_file.Messages.Wire.{class_of_body, save_message, received}
use cpe400_peer_2_peer_file.Node.{Node, Prio, enqueue}
use cpe400_peer_2_peer_file.Routing.{Intake, intake_of, is_this_node, hash_matches}
use cpe400_peer_2_peer_file.Incoming.{process_message}
use cpe400_peer_2_peer_file.Incoming.Forwarding.{others, passed, process_message_routes}
use cpe400_peer_2_peer_file.Network.{Frame, Nodes, put, frames_of, run}

-- Some nodes side by side, each with the nodes that its other links lead to.
pub data Forest (Ip : Type 0) : Type 0 where
  bare : Forest Ip
  tree : Ip → Forest Ip → Forest Ip → Forest Ip

module _ {Ip : Type 0} where
  -- The addresses of the nodes that stand side by side.
  abbrev pub roots : Forest Ip → List Ip
  roots bare = []
  roots (tree a children siblings) = a ∷ roots siblings

  abbrev pub size : Forest Ip → ℕ
  size bare = 0
  size (tree a children siblings) = suc (size children + size siblings)

module _ {Ip : Type 0} ⦃ip_eq : Eq Ip⦄ (net : Platform Ip) where
  -- From a parent: the peers of each node, but for those at its parent's address, are at the addresses
  -- of its children, and no node takes its parent for itself.
  abbrev pub IsWired : Nodes net → Ip → Forest Ip → Type 0
  IsWired nodes parent bare = Unit
  IsWired nodes parent (tree a children siblings) =
      ((others net parent (nodes a).peers ≡ roots children)
        × (is_this_node net parent (nodes a) ≡ false))
      × (IsWired nodes a children × IsWired nodes parent siblings)

  -- The data for each of some addresses.
  abbrev pub frames_to : Ip → Archive → List Ip → List (Frame Ip)
  frames_to parent data' = map (λ a. record { from_ip = parent; to_ip = a; data' = data' })

  pub frames_of-map :
      (a : Ip) (data' : Archive) (addresses : List Ip)
      → frames_of net a (map (λ b. (b, data')) addresses) ≡ frames_to a data' addresses
  frames_of-map a data' [] = refl
  frames_of-map a data' (b ∷ addresses) =
      ap (◌∷◌ (record { from_ip = a; to_ip = b; data' = data' })) (frames_of-map a data' addresses)

  -- As often as an address occurs among the nodes.
  abbrev pub entries : Prio Ip → Ip → Forest Ip → List (Prio Ip)
  entries entry b bare = []
  entries entry b (tree a children siblings) =
      (if b == a then entry ∷ [] else []) ++ (entries entry b children ++ entries entry b siblings)

  -- A node with the same links that has queued some entries.
  abbrev pub HasQueued : List (Prio Ip) → Node Ip → Node Ip → Type 0
  HasQueued new before after =
      (after.message_queue ≡ before.message_queue ++ new)
      × ((after.peers ≡ before.peers) × (after.ip ≡ before.ip))

  pub IsWired-same :
      (nodes nodes' : Nodes net) (parent : Ip) (forest : Forest Ip)
      → ((b : Ip) → (new : List (Prio Ip)) × HasQueued new (nodes b) (nodes' b))
      → IsWired nodes parent forest
      → IsWired nodes' parent forest
  IsWired-same nodes nodes' parent bare same h = tt
  IsWired-same nodes nodes' parent (tree a children siblings) same h =
      let (new, (queue, (peers, ip))) = same a in
      (
        (rw peers h.0.0, rw ip h.0.1),
        (
          IsWired-same nodes nodes' a children same h.1.0,
          IsWired-same nodes nodes' parent siblings same h.1.1,
        ),
      )

  pub HasQueued-append :
      (new new' : List (Prio Ip)) (n n' n'' : Node Ip)
      → HasQueued new n n'
      → HasQueued new' n' n''
      → HasQueued (new ++ new') n n''
  HasQueued-append new new' n n' n'' (queue, (peers, ip)) (queue', (peers', ip')) = (
    queue' ∙ ap (λ q. q ++ new') queue ∙ append_assoc n.message_queue new new',
    (peers' ∙ peers, ip' ∙ ip),
  )

module _ {Ip : Type 0} ⦃ip_eq : Eq Ip⦄ (net : Platform Ip) (law : IsLawful net) (m : Message Ip)
    (how : Intake) where
  -- A broadcast that every node takes in.
  abbrev pub IsTaken : Type 0
  IsTaken =
      (intake_of m.type ≡ some how)
      × ((class_of_body m.body ≡ how.class)
          × ((hash_matches net (received net m) how.offset ≡ true)
              × ((net.message_size ≤ length (net.archive_bytes (save_message net m)))
                  × (m.receiver_node ≡ net.ipv6_unspecified))))

  abbrev pub entry : Prio Ip
  entry = record { priority = how.priority; message = received net m }

  -- A node that takes it in from its parent.
  abbrev pub taking : List Ip → Node Ip → Node Ip
  taking addresses node =
      enqueue how.priority (received net m)
        (passed net (save_message net m) addresses (record node { sent = [] }))

  pub arrives :
      (parent a : Ip) (addresses : List Ip) (nodes : Nodes net)
      → IsTaken
      → others net parent (nodes a).peers ≡ addresses
      → is_this_node net parent (nodes a) ≡ false
      → process_message net parent (save_message net m) (record (nodes a) { sent = [] })
        ≡ returns (taking addresses (nodes a))
  arrives parent a addresses nodes (known, (same, (right, (long, all)))) wired other =
      process_message_routes net law m how parent (record (nodes a) { sent = [] }) known same right
        other long
      ∙ ground (arith, all, wired)

  pub put-HasQueued :
      (a : Ip) (addresses : List Ip) (nodes : Nodes net) (b : Ip)
      → HasQueued net
          (if b == a then entry ∷ [] else [])
          (nodes b)
          (put net a (taking addresses (nodes a)) nodes b)
  put-HasQueued a addresses nodes b = ground (arith, append-nil (nodes b).message_queue)

  pub run-arrives :
      (parent a : Ip) (addresses : List Ip) (nodes : Nodes net) (fuel : ℕ) (later : List (Frame Ip))
      → IsTaken
      → others net parent (nodes a).peers ≡ addresses
      → is_this_node net parent (nodes a) ≡ false
      → let data' = save_message net m in
        run net (suc fuel) (record { from_ip = parent; to_ip = a; data' = data' } ∷ later) nodes
        ≡ run net fuel
            (frames_to net a data' addresses ++ later)
            (put net a (taking addresses (nodes a)) nodes)
  unfolding run
  run-arrives parent a addresses nodes fuel later taken wired other =
      let data' = save_message net m in
      ap
        (λ result. result >>= λ node'.
          run net fuel (frames_of net a node'.sent ++ later) (put net a node' nodes))
        (arrives parent a addresses nodes taken wired other)
      ∙ ap (λ frames. run net fuel (frames ++ later) (put net a (taking addresses (nodes a)) nodes))
          (frames_of-map net a data' addresses)

  -- What is left to arrive after a forest's frames is as before, and its nodes have queued the message.
  abbrev pub Spreads : Ip → Forest Ip → ℕ → List (Frame Ip) → Nodes net → Type 0
  Spreads parent forest fuel rest nodes =
      (nodes' : Nodes net) × (run net (size forest + fuel)
          (frames_to net parent (save_message net m) (roots forest) ++ rest) nodes
        ≡ run net fuel rest nodes')
      × ((b : Ip) → HasQueued net (entries net entry b forest) (nodes b) (nodes' b))

  pub forest-Spreads :
      (forest : Forest Ip) (parent : Ip) (fuel : ℕ) (rest : List (Frame Ip)) (nodes : Nodes net)
      → IsTaken
      → IsWired net nodes parent forest
      → Spreads parent forest fuel rest nodes
  unfolding run
  forest-Spreads bare parent fuel rest nodes taken h =
      let e : 0 + fuel ≡ fuel = omega arith in
      (
        nodes,
        ap (λ k. run net k rest nodes) e,
        λ b. (sym (append-nil (nodes b).message_queue), (refl, refl)),
      )
  forest-Spreads (tree a children siblings) parent fuel rest nodes taken h =
      let data' = save_message net m in
      let nodes1 = put net a (taking (roots children) (nodes a)) nodes in
      let first = put-HasQueued a (roots children) nodes in
      let later = frames_to net parent data' (roots siblings) ++ rest in
      let (nodes2, run2, second) =
        forest-Spreads children a (size siblings + fuel) later nodes1 taken
          (IsWired-same net nodes nodes1 a children (λ b. (_, first b)) h.1.0) in
      let both : (b : Ip)
          → HasQueued net ((if b == a then entry ∷ [] else []) ++ entries net entry b children)
              (nodes b) (nodes2 b) =
        λ b. HasQueued-append net _ _ (nodes b) (nodes1 b) (nodes2 b) (first b) (second b) in
      let (nodes3, run3, third) =
        forest-Spreads siblings parent fuel rest nodes2 taken
          (IsWired-same net nodes nodes2 parent siblings (λ b. (_, both b)) h.1.1) in
      let e : suc (size children + size siblings) + fuel
          ≡ suc (size children + (size siblings + fuel)) =
        omega arith in
      (
        nodes3,
        ap
              (λ k.
                run net k (frames_to net parent data' (roots (tree a children siblings)) ++ rest)
                  nodes)
              e
            ∙ run-arrives parent a (roots children) nodes (size children + (size siblings + fuel))
                later taken h.0.0 h.0.1
            ∙ run2
            ∙ run3,
        λ b.
            subst (λ new. HasQueued net new (nodes b) (nodes3 b))
              (append_assoc (if b == a then entry ∷ [] else []) (entries net entry b children)
                (entries net entry b siblings))
              (HasQueued-append net _ _ (nodes b) (nodes2 b) (nodes3 b) (both b) (third b)),
      )
