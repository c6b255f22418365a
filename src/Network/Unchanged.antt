-- ===== src/Network/Unchanged.antt =====
-- What frames that arrive leave alone on every node.
use cpe400_peer_2_peer_file.Base.{ℕ, [], Eq, refl, sym, ◌∙◌, subst, arith}
use cpe400_peer_2_peer_file.Platform.{Platform}
use cpe400_peer_2_peer_file.Node.{Node}
use cpe400_peer_2_peer_file.Routing.Keeps.{Same, Keeps}
use cpe400_peer_2_peer_file.Incoming.Keeps.{process_message-Keeps}
use cpe400_peer_2_peer_file.Network.{Nodes, put}
use cpe400_peer_2_peer_file.Network.Arrivals.{Traffic, Step, arrive, Reach, here, next}

module _ {Ip : Type 0} ⦃ip_eq : Eq Ip⦄ (net : Platform Ip) where
  Same-trans : (n n' n'' : Node Ip) → Same net n n' → Same net n' n'' → Same net n n''
  Same-trans n n' n'' h h' = record {
    same_disk = h'.same_disk ∙ h.same_disk;
    same_folders = h'.same_folders ∙ h.same_folders;
    same_received = h'.same_received ∙ h.same_received;
    same_total = h'.same_total ∙ h.same_total;
    same_now = h'.same_now ∙ h.same_now;
  }

  Same-refl : (n : Node Ip) → Same net n n
  Same-refl n = record {
    same_disk = refl;
    same_folders = refl;
    same_received = refl;
    same_total = refl;
    same_now = refl;
  }

  cleared-Same : (n n' : Node Ip) → Same net (record n { sent = [] }) n' → Same net n n'
  cleared-Same n n' h = record {
    same_disk = h.same_disk;
    same_folders = h.same_folders;
    same_received = h.same_received;
    same_total = h.same_total;
    same_now = h.same_now;
  }

  put-Same :
      (a b : Ip) (node : Node Ip) (nodes : Nodes net)
      → Same net (nodes a) node
      → Same net (nodes b) (put net a node nodes b)
  put-Same a b node nodes h = ground (arith, Same-refl (nodes b))

  Step-Same : (s t : Traffic net) → Step net s t → (b : Ip) → Same net (s.nodes b) (t.nodes b)
  Step-Same s t (arrive before after frame node e arrived is) b =
      subst (λ (t : Traffic net). Same net (s.nodes b) (t.nodes b)) (sym is)
        (put-Same frame.to_ip b node s.nodes (
          cleared-Same (s.nodes frame.to_ip) node (
            subst (Keeps net (record (s.nodes frame.to_ip) { sent = [] })) arrived (
              process_message-Keeps net frame.from_ip frame.data'
                (record (s.nodes frame.to_ip) { sent = [] })))))

  pub Reach-Same :
      {start s : Traffic net} {n : ℕ}
      → Reach net start n s
      → (b : Ip) → Same net (start.nodes b) (s.nodes b)
  Reach-Same {start} here b = Same-refl (start.nodes b)
  Reach-Same {start} (next {n} {s} {t} reach step) b =
      Same-trans (start.nodes b) (s.nodes b) (t.nodes b) (Reach-Same reach b) (Step-Same s t step b)
