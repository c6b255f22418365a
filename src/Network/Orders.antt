-- ===== src/Network/Orders.antt =====
-- A broadcast in a tree, whatever the order in which the frames arrive.
use cpe400_peer_2_peer_file.Base.{
  ℕ, suc, List, [], ◌∷◌, ◌++◌, map, Eq, ◌≡◌, refl, sym, ap, ◌∙◌, subst, All, arith, zero,
}
use cpe400_peer_2_peer_file.Base.Outcome.{returns}
use cpe400_peer_2_peer_file.Platform.{Platform, IsLawful}
use cpe400_peer_2_peer_file.Messages.{Message}
use cpe400_peer_2_peer_file.Messages.Wire.{save_message}
use cpe400_peer_2_peer_file.Node.{Node}
use cpe400_peer_2_peer_file.Routing.{Intake}
use cpe400_peer_2_peer_file.Incoming.{process_message}
use cpe400_peer_2_peer_file.Network.{Frame, Nodes, put, frames_of}
use cpe400_peer_2_peer_file.Network.Trees.{roots, IsTaken, taking, frames_of-map}
use cpe400_peer_2_peer_file.Network.Branches.{
  Branch, frame_of, weight, branches, map-append, All-apart, map-branches, IsReady,
}
use cpe400_peer_2_peer_file.Network.Arrivals.{Traffic, Step, arrive, Reach, here, next}
use cpe400_peer_2_peer_file.Network.Reaching.{Inv, find, reached, process-taking, reached-Inv}

module _ {Ip : Type 0} ⦃ip_eq : Eq Ip⦄ (net : Platform Ip) (law : IsLawful net) (m : Message Ip)
    (how : Intake) where
  -- The traffic after a frame arrived and its node wrote other ones.
  abbrev landed : List (Frame Ip) → List (Frame Ip) → Ip → Node Ip → Traffic net → Traffic net
  landed before after a node s = record {
    nodes = put net a node s.nodes;
    flight = before ++ (after ++ frames_of net a node.sent);
  }

  landed-reached :
      (xs ys : List (Branch Ip)) (branch : Branch Ip) (s : Traffic net)
      → landed
          (map (frame_of (save_message net m)) xs)
          (map (frame_of (save_message net m)) ys)
          branch.root
          (taking net law m how (roots branch.children) (s.nodes branch.root))
          s
        ≡ reached net law m how xs branch ys s
  landed-reached xs ys branch s =
      let data' = save_message net m in
      let more = branches branch.root branch.children in
      let node = taking net law m how (roots branch.children) (s.nodes branch.root) in
      let written : frames_of net branch.root node.sent ≡ map (frame_of data') more =
        frames_of-map net branch.root data' (roots branch.children)
        ∙ sym (map-branches net data' branch.root branch.children) in
      let all : map (frame_of data') xs ++ (map (frame_of data') ys ++ map (frame_of data') more)
          ≡ map (frame_of data') (xs ++ (ys ++ more)) =
        rw (map-append (frame_of data') xs (ys ++ more), map-append (frame_of data') ys more)
          refl in
      ap (λ flight. record { nodes = put net branch.root node s.nodes; flight = flight })
        (ap (λ new. map (frame_of data') xs ++ (map (frame_of data') ys ++ new)) written ∙ all)

  step-reached :
      (s : Traffic net) (before after : List (Frame Ip)) (frame : Frame Ip) (node : Node Ip)
      (xs ys : List (Branch Ip)) (branch : Branch Ip)
      → IsTaken net law m how
      → IsReady net s.nodes branch
      → map (frame_of (save_message net m)) xs ≡ before
      → frame_of (save_message net m) branch ≡ frame
      → map (frame_of (save_message net m)) ys ≡ after
      → process_message net frame.from_ip frame.data' (record (s.nodes frame.to_ip) { sent = [] })
        ≡ returns node
      → landed before after frame.to_ip node s ≡ reached net law m how xs branch ys s
  step-reached s before after frame node xs ys branch taken ready left mid right arrived =
      let first : process_message net branch.parent (save_message net m)
            (record (s.nodes branch.root) { sent = [] })
          ≡ returns node =
        subst
          (λ (f : Frame Ip).
            process_message net f.from_ip f.data' (record (s.nodes f.to_ip) { sent = [] })
            ≡ returns node)
          (sym mid) arrived in
      let is_taking : node ≡ taking net law m how (roots branch.children) (s.nodes branch.root) =
        cc (first, process-taking net law m how s branch taken ready) in
      let front = map (frame_of (save_message net m)) xs in
      let back = map (frame_of (save_message net m)) ys in
      ap (λ fs. landed fs after frame.to_ip node s) (sym left)
      ∙ ap (λ fs. landed front fs frame.to_ip node s) (sym right)
      ∙ ap (λ (f : Frame Ip). landed front back f.to_ip node s) (sym mid)
      ∙ ap (λ n. landed front back branch.root n s) is_taking
      ∙ landed-reached xs ys branch s

  pub Step-Inv :
      (origin : Nodes net) (total : Ip → ℕ) (amount n : ℕ) (s t : Traffic net)
      → IsTaken net law m how
      → Step net s t
      → Inv net law m how origin total amount n s
      → Inv net law m how origin total amount (suc n) t
  Step-Inv origin total amount n s t taken (arrive before after frame node e arrived is) inv =
      let found = find net law m how before after frame inv.pending (sym inv.on_way ∙ e) in
      let (ready, others_ready) =
        All-apart (IsReady net s.nodes) found.xs found.ys found.branch
          (subst (All (IsReady net s.nodes)) found.same inv.ready) in
      let lands =
        step-reached s before after frame node found.xs found.ys found.branch taken ready
          found.before_xs found.is_frame found.after_ys arrived in
      subst (Inv net law m how origin total amount (suc n)) (sym (is ∙ lands)) (
        reached-Inv net law m how origin total amount n s found.xs found.ys found.branch inv
          found.same)

  -- While there are nodes to reach, the first frame on its way can arrive.
  first-Step :
      (origin : Nodes net) (total : Ip → ℕ) (amount n : ℕ) (s : Traffic net) (branch : Branch Ip)
      (pending : List (Branch Ip)) (inv : Inv net law m how origin total amount n s)
      → IsTaken net law m how
      → inv.pending ≡ branch ∷ pending
      → (t : Traffic net) × Step net s t
  first-Step origin total amount n s branch pending inv taken split =
      let data' = save_message net m in
      let node = taking net law m how (roots branch.children) (s.nodes branch.root) in
      let ready = subst (All (IsReady net s.nodes)) split inv.ready in
      (
        landed [] (map (frame_of data') pending) branch.root node s,
        arrive [] (map (frame_of data') pending) (frame_of data' branch) node
            (inv.on_way ∙ ap (map (frame_of data')) split)
            (process-taking net law m how s branch taken ready.0) refl,
      )

  pub Reach-Inv :
      (origin : Nodes net) (total : Ip → ℕ) (amount : ℕ) (start : Traffic net)
      → IsTaken net law m how
      → Inv net law m how origin total amount 0 start
      → {n : ℕ} {s : Traffic net} → Reach net start n s
      → Inv net law m how origin total amount n s
  Reach-Inv origin total amount start taken inv here = inv
  Reach-Inv origin total amount start taken inv (next {n} {s} {t} r step) =
      Step-Inv origin total amount n s t taken step
        (Reach-Inv origin total amount start taken inv r)

  Reach-front :
      {s t u : Traffic net} {k : ℕ} → Step net s t → Reach net t k u → Reach net s (suc k) u
  Reach-front step here = next here step
  Reach-front step (next reach last) = next (Reach-front step reach) last

  -- The frames that are still to come can all arrive.
  pub rest-Reach :
      (origin : Nodes net) (total : Ip → ℕ) (amount k n : ℕ) (s : Traffic net)
      (pending : List (Branch Ip)) (inv : Inv net law m how origin total amount n s)
      → IsTaken net law m how
      → inv.pending ≡ pending
      → weight pending ≡ k
      → (t : Traffic net) × Reach net s k t × (t.flight ≡ [])
  rest-Reach origin total amount zero n s [] inv taken split none_left =
      (s, here, inv.on_way ∙ ap (map (frame_of (save_message net m))) split)
  rest-Reach origin total amount (suc k) n s (branch ∷ pending) inv taken split some_left =
      let (t, step) = first-Step origin total amount n s branch pending inv taken split in
      let inv' = Step-Inv origin total amount n s t taken step inv in
      let (u, reach, landed) =
        rest-Reach origin total amount k (suc n) t inv'.pending inv' taken refl
          (omega (arith, inv.left, inv'.left, ap weight split, some_left)) in
      (u, Reach-front step reach, landed)
  rest-Reach origin total amount zero n s (branch ∷ pending) inv taken split none_left =
      absurd (omega (arith, none_left))
  rest-Reach origin total amount (suc k) n s [] inv taken split some_left =
      absurd (omega (arith, some_left))
