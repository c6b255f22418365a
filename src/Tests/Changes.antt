-- ===== src/Tests/Changes.antt =====
-- A change and a lock of a file in a network of two nodes.
use cpe400_peer_2_peer_file.Base.{
  ℕ, true, [], ◌∷◌, some, eqb, if◌then◌else◌, ◌≡◌, refl, arith, path_eq, name_eq,
}
use cpe400_peer_2_peer_file.Base.Outcome.{returns}
use cpe400_peer_2_peer_file.Base.Dict
use cpe400_peer_2_peer_file.Text.{Text, codes, hash, decimal}
use cpe400_peer_2_peer_file.Paths.{filename, wnts_path, lock_file_path, remove_filename}
use cpe400_peer_2_peer_file.Messages.{Message, hash_message}
use cpe400_peer_2_peer_file.Messages.Archive.{lexically_normal}
use cpe400_peer_2_peer_file.Messages.Wire.{save_message, received}
use cpe400_peer_2_peer_file.Disk.{File, file, file_bytes, directory}
use cpe400_peer_2_peer_file.Node.{Node, enqueue}
use cpe400_peer_2_peer_file.Routing.{file_priority, lock_priority, addressed, hash_matches}
use cpe400_peer_2_peer_file.Routing.Laws.{CanBroadcast}
use cpe400_peer_2_peer_file.Incoming.{process_message}
use cpe400_peer_2_peer_file.Incoming.Forwarding.{process_message_routes}
use cpe400_peer_2_peer_file.Callbacks.{on_file_fast_tracked, on_file_created_or_modified}
use cpe400_peer_2_peer_file.Network.{put}
use cpe400_peer_2_peer_file.Network.Trees.{bare, tree}
use cpe400_peer_2_peer_file.Network.Arrivals.{Traffic, Step, arrive, here, next}
use cpe400_peer_2_peer_file.Network.AnyOrder.{begun}
use cpe400_peer_2_peer_file.Network.Changes.{
  IsReadyFor, GetsContent, change_of, change_intake, changed_sender,
  on_file_created_or_modified-sends, change-Spreads,
}
use cpe400_peer_2_peer_file.Network.Landing.{sent_by}
use cpe400_peer_2_peer_file.Network.Locking.{
  IsLockable, GetsLocked, lock_of, lock_intake, on_file_fast_tracked-sends, lock-Spreads,
}
use cpe400_peer_2_peer_file.Tests.Sample.{
  number_eq, a_node, a_file, a_peer, folder, target, node_on,
}
use cpe400_peer_2_peer_file.Tests.Joining.{late_net, late_net-IsLawful}

abbrev new_content : Text
new_content = codes "cd"

abbrev new_file : File ℕ
new_file = record a_file { content = file_bytes new_content; modified = 5000000500 }

-- Node 5 has the new content, node 6 the old one.
abbrev source : Node ℕ
source = record (node_on ((folder, directory) ∷ (target, file new_file) ∷ [])) {
  peers = a_peer 6 ∷ [];
}

abbrev pair : ℕ → Node ℕ
pair b = if eqb b 5 then source else record a_node { ip = b; peers = a_peer 5 ∷ [] }

abbrev change : Message ℕ
change =
    addressed late_net (change_of late_net late_net-IsLawful target new_file new_content) 0 source

abbrev sender : Node ℕ
sender = changed_sender late_net late_net-IsLawful target new_file new_content source

source-CanBroadcast : CanBroadcast late_net source
unfolding number_eq
source-CanBroadcast = (((λ e. absurd (omega (arith, e))), tt), refl)

there : Dict.lookup target source.disk ≡ some (file new_file)
unfolding Dict.lookup path_eq name_eq
there = refl

right : hash_matches late_net (received late_net change) 1 ≡ true
unfolding hash_message hash decimal number_eq lexically_normal name_eq
right = refl

change_sent : on_file_created_or_modified late_net target source ≡ returns sender
unfolding Dict.lookup path_eq name_eq wnts_path
change_sent =
    on_file_created_or_modified-sends late_net late_net-IsLawful target new_content new_file source
      source-CanBroadcast there refl refl right

abbrev six : Node ℕ
six = enqueue file_priority (received late_net change) (record (pair 6) { sent = [] })

abbrev landed : Traffic late_net
landed = record { nodes = put late_net 6 six (begun late_net pair 5 sender).nodes; flight = [] }

six_arrived :
    process_message late_net 5 (save_message late_net change) (record (pair 6) { sent = [] })
    ≡ returns six
unfolding number_eq
six_arrived =
    process_message_routes late_net late_net-IsLawful change
      (change_intake late_net late_net-IsLawful) 5 (record (pair 6) { sent = [] }) refl refl right
      refl (omega arith)

change_lands : Step late_net (begun late_net pair 5 sender) landed
unfolding number_eq
change_lands =
    arrive [] [] (record { from_ip = 5; to_ip = 6; data' = save_message late_net change }) six refl
      six_arrived refl

ready : IsReadyFor late_net (lexically_normal target) (pair 6)
unfolding Dict.lookup path_eq name_eq lexically_normal lock_file_path remove_filename
ready = (refl, refl, (a_file, (refl, refl)), (λ f e. cc, tt))

change-Spreads_example : GetsContent late_net (lexically_normal target) new_content (landed.nodes 6)
unfolding number_eq Dict.lookup path_eq name_eq wnts_path
change-Spreads_example =
    change-Spreads late_net late_net-IsLawful target new_content new_file pair 5 (tree 6 bare bare)
      sender 6 source-CanBroadcast refl there refl refl right (omega arith)
      (refl, ((refl, refl), (tt, tt))) refl (λ e. absurd (omega (arith, e))) refl ready change_sent
      (next here change_lands) refl

-- Node 5 locks the file.
abbrev locking : Message ℕ
locking = addressed late_net (lock_of late_net late_net-IsLawful target new_file) 0 source

abbrev locker : Node ℕ
locker =
    sent_by late_net (lock_of late_net late_net-IsLawful target new_file) lock_priority source.disk
      source

lock_right : hash_matches late_net (received late_net locking) 1 ≡ true
unfolding hash_message hash decimal number_eq lexically_normal name_eq
lock_right = refl

lock_sent : on_file_fast_tracked late_net target source ≡ returns locker
lock_sent =
    on_file_fast_tracked-sends late_net late_net-IsLawful target new_file source source-CanBroadcast
      there lock_right

abbrev told_six : Node ℕ
told_six = enqueue lock_priority (received late_net locking) (record (pair 6) { sent = [] })

abbrev told : Traffic late_net
told = record { nodes = put late_net 6 told_six (begun late_net pair 5 locker).nodes; flight = [] }

six_told :
    process_message late_net 5 (save_message late_net locking) (record (pair 6) { sent = [] })
    ≡ returns told_six
unfolding number_eq
six_told =
    process_message_routes late_net late_net-IsLawful locking
      (lock_intake late_net late_net-IsLawful) 5 (record (pair 6) { sent = [] }) refl refl
      lock_right refl (omega arith)

lock_lands : Step late_net (begun late_net pair 5 locker) told
unfolding number_eq
lock_lands =
    arrive [] [] (record { from_ip = 5; to_ip = 6; data' = save_message late_net locking }) told_six
      refl six_told refl

lockable : IsLockable late_net (lexically_normal target) a_file (pair 6)
unfolding Dict.lookup path_eq name_eq lexically_normal lock_file_path wnts_path remove_filename
    filename
lockable = (refl, refl, refl, (λ f e. cc, (λ f e. cc, tt)))

lock-Spreads_example : GetsLocked late_net (lexically_normal target) a_file (told.nodes 6)
unfolding number_eq
lock-Spreads_example =
    lock-Spreads late_net late_net-IsLawful target new_file a_file pair 5 (tree 6 bare bare) locker
      6 source-CanBroadcast refl there lock_right (omega arith) (refl, ((refl, refl), (tt, tt)))
      refl (λ e. absurd (omega (arith, e))) (λ e. absurd (omega (arith, e))) refl lockable lock_sent
      (next here lock_lands) refl
