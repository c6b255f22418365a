-- ===== src/Tests/Network.antt =====
-- Broadcasts in networks of a few nodes.
use cpe400_peer_2_peer_file.Base.{ℕ, true, ◌≤◌, [], ◌∷◌, eqb, if◌then◌else◌, ◌≡◌, refl, arith}
use cpe400_peer_2_peer_file.Base.Outcome.{returns, too_deep}
use cpe400_peer_2_peer_file.Messages.{Message}
use cpe400_peer_2_peer_file.Messages.Wire.{message_class, save_message, received}
use cpe400_peer_2_peer_file.Node.{Node, enqueue}
use cpe400_peer_2_peer_file.Routing.{Intake, intake, addressed, disconnect_priority, transmit, send}
use cpe400_peer_2_peer_file.Routing.Laws.{frames, remembered, send_broadcast}
use cpe400_peer_2_peer_file.Incoming.{process_message}
use cpe400_peer_2_peer_file.Incoming.Forwarding.{process_message_routes}
use cpe400_peer_2_peer_file.Network.{Frame, run, put}
use cpe400_peer_2_peer_file.Network.Arrivals.{Traffic, Step, arrive, here, next}
use cpe400_peer_2_peer_file.Network.Circles.{run-circle}
use cpe400_peer_2_peer_file.Network.Trees.{Forest, bare, tree}
use cpe400_peer_2_peer_file.Network.Broadcast.{occurrences}
use cpe400_peer_2_peer_file.Network.AnyOrder.{begun, IsSpreading, Reach-IsSpreading}
use cpe400_peer_2_peer_file.Tests.Sample.{
  sample_net, sample_net-IsLawful, a_node, a_peer, number_eq,
}
use cpe400_peer_2_peer_file.Tests.Messaging.{leave, leave_right, a_node-CanBroadcast}

-- Node 5 has the peers 6 and 7, and 6 has 8.
abbrev nodes : ℕ → Node ℕ
nodes b =
    if eqb b 5
    then a_node
    else if eqb b 6
    then record a_node { ip = 6; peers = a_peer 5 ∷ a_peer 8 ∷ [] }
    else record a_node { ip = b; peers = a_peer (if eqb b 7 then 5 else 6) ∷ [] }

abbrev links : Forest ℕ
links = tree 6 (tree 8 bare bare) (tree 7 bare bare)

apart : (b : ℕ) → occurrences b (tree 5 links bare) ≤ 1
apart b = ground arith

abbrev how : Intake
how = intake message_class 0 disconnect_priority

abbrev msg : Message ℕ
msg = addressed sample_net leave 0 a_node

abbrev sender : Node ℕ
sender = remembered sample_net msg (
    enqueue disconnect_priority (received sample_net msg)
      (transmit sample_net (frames sample_net (save_message sample_net msg) a_node.peers) a_node))

leave_sent : send sample_net leave 0 true a_node ≡ returns sender
leave_sent =
    send_broadcast sample_net sample_net-IsLawful leave how a_node refl refl a_node-CanBroadcast
      leave_right

-- Node 7 is the first to get it.
abbrev seven : Node ℕ
seven = enqueue disconnect_priority (received sample_net msg) (record (nodes 7) { sent = [] })

abbrev flight_to : ℕ → Frame ℕ
flight_to b = record { from_ip = 5; to_ip = b; data' = save_message sample_net msg }

abbrev one_arrived : Traffic sample_net
one_arrived = record {
  nodes = put sample_net 7 seven (begun sample_net nodes 5 sender).nodes;
  flight = flight_to 6 ∷ [];
}

seven_arrived :
    process_message sample_net 5 (save_message sample_net msg) (record (nodes 7) { sent = [] })
    ≡ returns seven
unfolding number_eq
seven_arrived =
    process_message_routes sample_net sample_net-IsLawful msg how 5 (record (nodes 7) { sent = [] })
      refl refl leave_right refl (omega arith)

one_arrives : Step sample_net (begun sample_net nodes 5 sender) one_arrived
unfolding number_eq
one_arrives = arrive (flight_to 6 ∷ []) [] (flight_to 7) seven refl seven_arrived refl

Reach-IsSpreading_example :
    IsSpreading sample_net sample_net-IsLawful leave how nodes 5 links 1 one_arrived
unfolding number_eq
Reach-IsSpreading_example =
    Reach-IsSpreading sample_net sample_net-IsLawful leave how nodes 5 links sender
      a_node-CanBroadcast refl refl (refl, (refl, (leave_right, (omega arith, refl))))
      (refl, ((refl, refl), (((refl, refl), (tt, tt)), ((refl, refl), (tt, tt))))) apart leave_sent
      (next here one_arrives)

-- Each of the nodes 5, 6 and 7 has the two others as peers.
abbrev ring : ℕ → Node ℕ
ring b =
    if eqb b 5
    then a_node
    else if eqb b 6
    then record a_node { ip = 6; peers = a_peer 5 ∷ a_peer 7 ∷ [] }
    else record a_node { ip = b; peers = a_peer 5 ∷ a_peer 6 ∷ [] }

abbrev left_by_five : Message ℕ
left_by_five = addressed sample_net leave 0 a_node

run-circle_example :
    run sample_net 100
      (record { from_ip = 5; to_ip = 6; data' = save_message sample_net left_by_five } ∷ [])
      ring
    ≡ too_deep
unfolding number_eq
run-circle_example =
    run-circle sample_net sample_net-IsLawful left_by_five
      (intake message_class 0 disconnect_priority) ring 5 6 7 100 []
      (refl, (refl, (leave_right, (omega arith, refl))))
      ((refl, refl), ((refl, refl), (refl, refl)))
