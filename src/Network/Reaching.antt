-- ===== src/Network/Reaching.antt =====
-- How the nodes that were reached are counted while a broadcast goes through a tree.
use cpe400_peer_2_peer_file.Base.{
  ℕ, suc, zero, ◌+◌, Bool, true, false, List, [], ◌∷◌, ◌++◌, map, Eq, ◌==◌, if◌then◌else◌, ◌≡◌,
  refl, ap, subst, arith, All, append_assoc, append-nil,
}
use cpe400_peer_2_peer_file.Base.Outcome.{returns}
use cpe400_peer_2_peer_file.Platform.{Platform, IsLawful}
use cpe400_peer_2_peer_file.Messages.{Message}
use cpe400_peer_2_peer_file.Messages.Wire.{save_message}
use cpe400_peer_2_peer_file.Node.{Prio}
use cpe400_peer_2_peer_file.Routing.{Intake}
use cpe400_peer_2_peer_file.Incoming.{process_message}
use cpe400_peer_2_peer_file.Network.{Frame, Nodes, put}
use cpe400_peer_2_peer_file.Network.Trees.{
  roots, HasQueued, HasQueued-append, IsTaken, entry, taking, arrives, put-HasQueued,
}
use cpe400_peer_2_peer_file.Network.Branches.{
  Branch, frame_of, branches, weight, outstanding, weight-append, weight-branches, All-append,
  All-apart, outstanding-append, outstanding-branches, map-split, IsReady, branches-IsReady,
  IsReady-same,
}
use cpe400_peer_2_peer_file.Network.Arrivals.{Traffic}

module _ {Ip : Type 0} where
  abbrev pub repeat : ℕ → Prio Ip → List (Prio Ip)
  repeat zero e = []
  repeat (suc k) e = e ∷ repeat k e

  repeat-end : (k : ℕ) (e : Prio Ip) → repeat k e ++ e ∷ [] ≡ repeat (suc k) e
  repeat-end zero e = refl
  repeat-end (suc k) e = ap (◌∷◌ e) (repeat-end k e)

  repeat-if :
      (test : Bool) (k : ℕ) (e : Prio Ip)
      → repeat k e ++ (if test then e ∷ [] else []) ≡ repeat (if test then suc k else k) e
  repeat-if true k e = repeat-end k e
  repeat-if false k e = append-nil (repeat k e)

module _ {Ip : Type 0} ⦃ip_eq : Eq Ip⦄ (net : Platform Ip) (law : IsLawful net) (m : Message Ip)
    (how : Intake) where
  -- A node has queued the message as often as it occurs among the nodes that were reached.
  abbrev pub IsCounted : Nodes net → (Ip → ℕ) → List (Branch Ip) → Traffic net → Type 0
  IsCounted origin total pending s =
      (b : Ip)
      → (k : ℕ) × (k + outstanding b pending ≡ total b)
        × HasQueued net (repeat k (entry net law m how)) (origin b) (s.nodes b)

  -- After n arrivals, out of some amount.
  pub record Inv (origin : Nodes net) (total : Ip → ℕ) (amount n : ℕ) (s : Traffic net)
      : Type 0 where
    pub pending : List (Branch Ip)
    pub on_way : s.flight ≡ map (frame_of (save_message net m)) pending
    pub ready : All (IsReady net s.nodes) pending
    pub left : n + weight pending ≡ amount
    pub counted : IsCounted origin total pending s

  -- A frame on its way, and the branch that it leads to.
  pub record Found (before after : List (Frame Ip)) (frame : Frame Ip) (pending : List (Branch Ip))
      : Type 0 where
    pub xs : List (Branch Ip)
    pub branch : Branch Ip
    pub ys : List (Branch Ip)
    pub same : pending ≡ xs ++ branch ∷ ys
    pub before_xs : map (frame_of (save_message net m)) xs ≡ before
    pub is_frame : frame_of (save_message net m) branch ≡ frame
    pub after_ys : map (frame_of (save_message net m)) ys ≡ after

  pub find :
      (before after : List (Frame Ip)) (frame : Frame Ip) (pending : List (Branch Ip))
      → map (frame_of (save_message net m)) pending ≡ before ++ frame ∷ after
      → Found before after frame pending
  find before after frame pending e =
      let (xs, branch, ys, same, left, mid, right) =
        map-split (frame_of (save_message net m)) pending before after frame e in
      record {
        xs = xs;
        branch = branch;
        ys = ys;
        same = same;
        before_xs = left;
        is_frame = mid;
        after_ys = right;
      }

  -- The traffic after a branch's node was reached.
  abbrev pub reached : List (Branch Ip) → Branch Ip → List (Branch Ip) → Traffic net → Traffic net
  reached xs branch ys s = record {
    nodes =
        put net branch.root (taking net law m how (roots branch.children) (s.nodes branch.root))
          s.nodes;
    flight =
        map (frame_of (save_message net m)) (xs ++ (ys ++ branches branch.root branch.children));
  }

  IsCounted-reached :
      (origin : Nodes net) (total : Ip → ℕ) (s : Traffic net) (xs ys : List (Branch Ip))
      (branch : Branch Ip)
      → IsCounted origin total (xs ++ branch ∷ ys) s
      → IsCounted origin total
          (xs ++ (ys ++ branches branch.root branch.children))
          (reached xs branch ys s)
  IsCounted-reached origin total s xs ys branch counted b =
      let (k, sum, same) = counted b in
      let e = entry net law m how in
      let test = b == branch.root in
      let k' : ℕ = if test then suc k else k in
      let node = s.nodes b in
      let node' = (reached xs branch ys s).nodes b in
      (
        k',
        ground (
          arith,
          sum,
          outstanding-append b xs (branch ∷ ys),
          outstanding-append b xs (ys ++ branches branch.root branch.children),
          outstanding-append b ys (branches branch.root branch.children),
          outstanding-branches b branch.root branch.children,
        ),
        subst (λ new. HasQueued net new (origin b) node') (repeat-if test k e)
            (HasQueued-append net (repeat k e) (if test then e ∷ [] else []) (origin b) node node'
              same (put-HasQueued net law m how branch.root (roots branch.children) s.nodes b)),
      )

  -- Its frame can arrive.
  pub process-taking :
      (s : Traffic net) (branch : Branch Ip)
      → IsTaken net law m how
      → IsReady net s.nodes branch
      → process_message net branch.parent
          (save_message net m)
          (record (s.nodes branch.root) { sent = [] })
        ≡ returns (taking net law m how (roots branch.children) (s.nodes branch.root))
  process-taking s branch taken ready =
      arrives net law m how branch.parent branch.root (roots branch.children) s.nodes taken
        ready.0.0 ready.0.1

  pub reached-Inv :
      (origin : Nodes net) (total : Ip → ℕ) (amount n : ℕ) (s : Traffic net)
      (xs ys : List (Branch Ip)) (branch : Branch Ip) (inv : Inv origin total amount n s)
      → inv.pending ≡ xs ++ branch ∷ ys
      → Inv origin total amount (suc n) (reached xs branch ys s)
  reached-Inv origin total amount n s xs ys branch inv split =
      let (here', rest) =
        All-apart (IsReady net s.nodes) xs ys branch
          (subst (All (IsReady net s.nodes)) split inv.ready) in
      let grown : (b : Ip)
          → (new : List (Prio Ip)) × HasQueued net new (s.nodes b)
              ((reached xs branch ys s).nodes b) =
        λ b. (_, put-HasQueued net law m how branch.root (roots branch.children) s.nodes b) in
      let t = reached xs branch ys s in
      let more = branches branch.root branch.children in
      record {
        pending = xs ++ (ys ++ more);
        on_way = refl;
        ready = IsReady-same net s.nodes t.nodes (xs ++ (ys ++ more)) grown (
            subst (All (IsReady net s.nodes)) (append_assoc xs ys more) (
              All-append (IsReady net s.nodes) (xs ++ ys) more rest
                (branches-IsReady net s.nodes branch.root branch.children here'.1)));
        left = omega (
          arith,
          inv.left,
          ap weight split,
          weight-append xs (branch ∷ ys),
          weight-append xs (ys ++ more),
          weight-append ys more,
          weight-branches branch.root branch.children,
        );
        counted =
            IsCounted-reached origin total s xs ys branch
              (subst (λ pending. IsCounted origin total pending s) split inv.counted);
      }
