-- ===== src/Manager/Syncing.antt =====
-- A turn in which a node that joins takes a file of the initial sync.
use cpe400_peer_2_peer_file.Base.{
  ℕ, suc, ◌+◌, ◌%◌, ◌≤◌, arith, true, List, [], ◌∷◌, Eq, ◌≡◌, refl, sym, subst, All, length, inr,
  some,
}
use cpe400_peer_2_peer_file.Base.Outcome.{returns}
use cpe400_peer_2_peer_file.Text.{size_t_mod}
use cpe400_peer_2_peer_file.Platform.{Platform}
use cpe400_peer_2_peer_file.Messages.{MessageType, initial_sync, Body, sync_body, Message}
use cpe400_peer_2_peer_file.Disk.{Disk}
use cpe400_peer_2_peer_file.Node.{Prio, Node}
use cpe400_peer_2_peer_file.Queue.{timestamp_of}
use cpe400_peer_2_peer_file.Queue.Order.{IsComparable, take_top-Served, take_top-All}
use cpe400_peer_2_peer_file.Queue.Taking.{take_top-IsWhole}
use cpe400_peer_2_peer_file.Handlers.Sync.Receiving.{
  HasContent, Targets, HasRoom, Keeps, process_initial_file_sync_message-Stored,
}
use cpe400_peer_2_peer_file.Manager.{dispatch, next_of, process_next_message}

module _ {Ip : Type 0} where
  -- Whether a file that a message carries is on the disk, with its content.
  abbrev pub HasArrived : Disk Ip → Body Ip → Type 0
  HasArrived disk (sync_body t timestamp content total index) = HasContent content t disk
  HasArrived disk _ = Unit

  -- All files of a queue are on the disk.
  abbrev pub AllArrived : Disk Ip → List (Prio Ip) → Type 0
  AllArrived disk = All (λ p. HasArrived disk p.message.body)

-- Messages of the initial sync.
module _ {Ip : Type 0} (targets : Targets) where
  abbrev pub Carries : ℕ → Body Ip → Type 0
  Carries total (sync_body t timestamp content n index) =
      (targets.is_target t ≡ true) × (content ≡ targets.expected t) × (n ≡ total)
  Carries total _ = ⊥

  -- A message of the initial sync of so many files, with one of them.
  abbrev pub IsSync : ℕ → Prio Ip → Type 0
  IsSync total p = (p.message.type ≡ initial_sync) × Carries total p.message.body

  HasArrived-kept :
      (disk disk' : Disk Ip) (total : ℕ) (body : Body Ip)
      → Keeps targets disk disk'
      → Carries total body
      → HasArrived disk body
      → HasArrived disk' body
  HasArrived-kept disk disk' total (sync_body t timestamp content n index) kept (one, same, _) h =
      subst (λ c. HasContent c t disk') (sym same)
        (kept t one (subst (λ c. HasContent c t disk) same h))
  HasArrived-kept disk disk' total _ kept carries h = absurd carries

  IsSync-IsComparable : (total : ℕ) (p : Prio Ip) → IsSync total p → IsComparable p
  IsSync-IsComparable total p h = inr (stamped p.message.body h.1)
    where
      stamped : (body : Body Ip) → Carries total body → (t : ℕ) × (timestamp_of body ≡ some t)
      stamped (sync_body t timestamp content n index) carries = (timestamp, refl)
      stamped _ carries = absurd carries

  AllSync-AllComparable :
      (total : ℕ) (queue : List (Prio Ip)) → All (IsSync total) queue → All IsComparable queue
  AllSync-AllComparable total [] h = tt
  AllSync-AllComparable total (p ∷ queue) h =
      (IsSync-IsComparable total p h.0, AllSync-AllComparable total queue h.1)

module _ {Ip : Type 0} ⦃ip_eq : Eq Ip⦄ (net : Platform Ip)
    (created : net.created_perms.write.owner ≡ true) (targets : Targets) where
  record Handles (total : ℕ) (type : MessageType) (body : Body Ip) (m : Message Ip) (node : Node Ip)
      : Type 0 where
    after : Disk Ip
    gives :
        dispatch net type body m node
        ≡ returns (
          true,
          record node {
            total_initial_files = total;
            received_initial_files = (node.received_initial_files + 1) % size_t_mod;
            disk = after;
          },
        )
    room : HasRoom targets after
    kept : Keeps targets node.disk after
    arrived : HasArrived after body

  dispatch-Handles :
      (total : ℕ) (body : Body Ip) (m : Message Ip) (node : Node Ip)
      → Carries targets total body
      → HasRoom targets node.disk
      → Handles total initial_sync body m node
  unfolding dispatch
  dispatch-Handles total (sync_body t timestamp content n index) m node (one, is_content, is_total)
        room =
      let stored =
        process_initial_file_sync_message-Stored net created targets t content total node one
          is_content room in
      record {
        after = stored.after;
        gives = rw is_total stored.gives;
        room = stored.has_room;
        kept = stored.kept;
        arrived = stored.stored;
      }
  dispatch-Handles total _ m node carries room = absurd carries

  -- One turn.
  pub record Turn (total : ℕ) (queue : List (Prio Ip)) (node : Node Ip) : Type 0 where
    pub next : Node Ip
    pub gives : process_next_message net node ≡ returns next
    pub fewer : length queue ≡ suc (length next.message_queue)
    pub sync : All (IsSync targets total) next.message_queue
    pub clock :
        (limit : ℕ)
        → ((m : Message Ip) (t : ℕ) → m.type ≡ initial_sync → net.handling_time m t ≤ limit)
        → (node.now ≤ next.now) × (next.now ≤ node.now + limit)
    pub counted : next.received_initial_files ≡ (node.received_initial_files + 1) % size_t_mod
    pub known : next.total_initial_files ≡ total
    pub room : HasRoom targets next.disk
    pub kept : Keeps targets node.disk next.disk
    pub arrived :
        (disk : Disk Ip)
        → Keeps targets next.disk disk
        → AllArrived disk next.message_queue
        → AllArrived disk queue

  pub process_next_message-Turn :
      (total : ℕ) (node : Node Ip) (p : Prio Ip) (rest : List (Prio Ip))
      → node.message_queue ≡ p ∷ rest
      → All (IsSync targets total) (p ∷ rest)
      → HasRoom targets node.disk
      → Turn total (p ∷ rest) node
  unfolding process_next_message next_of
  process_next_message-Turn total node p rest queued sync room =
      let all = AllSync-AllComparable targets total (p ∷ rest) sync in
      let served = take_top-Served p rest all.0 all.1 in
      let (of_top, of_others) =
        take_top-All (IsSync targets total) p rest served.top served.others sync served.result in
      let m = served.top.message in
      let taken = record node { message_queue = served.others } in
      let handled =
        subst (λ type. Handles total type m.body m taken) (sym of_top.0)
          (dispatch-Handles total m.body m taken of_top.1 room) in
      record {
        next = record node {
          message_queue = served.others;
          total_initial_files = total;
          received_initial_files = (node.received_initial_files + 1) % size_t_mod;
          disk = handled.after;
          old_messages = net.remember m node.old_messages;
          now = node.now + net.handling_time m node.now;
        };
        gives = rw (queued, next_of, served.result, handled.gives);
        fewer =
            (take_top-IsWhole (IsSync targets total) p rest served.top served.others
              served.result).0;
        sync = of_others;
        clock = λ limit brief. (omega arith, omega (arith, brief m node.now of_top.0));
        counted = refl;
        known = refl;
        room = handled.room;
        kept = handled.kept;
        arrived = λ disk kept others_there.
            (take_top-IsWhole (λ p. HasArrived disk p.message.body) p rest served.top served.others
                served.result).1
              (HasArrived-kept targets handled.after disk total m.body kept of_top.1
                handled.arrived)
              others_there;
      }
