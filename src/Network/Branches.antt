-- ===== src/Network/Branches.antt =====
-- The parts of a tree that a broadcast still has to reach, one for each frame on its way.
use cpe400_peer_2_peer_file.Base.{
  ℕ, suc, ◌+◌, false, List, [], ◌∷◌, ◌++◌, map, Eq, ◌==◌, if◌then◌else◌, ◌≡◌, refl, ap, arith, All,
}
use cpe400_peer_2_peer_file.Platform.{Platform}
use cpe400_peer_2_peer_file.Messages.Archive.{Archive}
use cpe400_peer_2_peer_file.Node.{Prio}
use cpe400_peer_2_peer_file.Routing.{is_this_node}
use cpe400_peer_2_peer_file.Incoming.Forwarding.{others}
use cpe400_peer_2_peer_file.Network.{Frame, Nodes}
use cpe400_peer_2_peer_file.Network.Trees.{
  Forest, bare, tree, roots, size, IsWired, IsWired-same, HasQueued, frames_to,
}
use cpe400_peer_2_peer_file.Network.Broadcast.{occurrences}

-- A node that is reached next, from its parent, and what is behind it.
pub record Branch (Ip : Type 0) : Type 0 where
  pub parent : Ip
  pub root : Ip
  pub children : Forest Ip

-- A list that is mapped, taken apart at a value.
pub map-split :
    {A B : Type 0} (f : A → B) (xs : List A) (before after : List B) (y : B)
    → map f xs ≡ before ++ y ∷ after
    → (xs1 : List A) × (x : A) × (xs2 : List A) × (xs ≡ xs1 ++ x ∷ xs2)
      × (map f xs1 ≡ before)
      × (f x ≡ y)
      × (map f xs2 ≡ after)
map-split f [] [] after y e = cc
map-split f [] (b ∷ before) after y e = cc
map-split f (x ∷ xs) [] after y e = ([], x, xs, refl, refl, cc, cc)
map-split f (x ∷ xs) (b ∷ before) after y e =
    let tails : map f xs ≡ before ++ y ∷ after = cc in
    let (xs1, z, xs2, same, left, mid, right) = map-split f xs before after y tails in
    (x ∷ xs1, z, xs2, ap (◌∷◌ x) same, cc, mid, right)

module _ {Ip : Type 0} where
  abbrev pub frame_of : Archive → Branch Ip → Frame Ip
  frame_of data' branch = record { from_ip = branch.parent; to_ip = branch.root; data' = data' }

  abbrev pub branches : Ip → Forest Ip → List (Branch Ip)
  branches parent bare = []
  branches parent (tree a children siblings) =
      record { parent = parent; root = a; children = children } ∷ branches parent siblings

  -- How many nodes are still to be reached.
  abbrev pub weight : List (Branch Ip) → ℕ
  weight [] = 0
  weight (branch ∷ pending) = suc (size branch.children + weight pending)

  pub weight-append : (xs ys : List (Branch Ip)) → weight (xs ++ ys) ≡ weight xs + weight ys
  weight-append [] ys = omega arith
  weight-append (x ∷ xs) ys = omega (arith, weight-append xs ys)

  pub weight-branches :
      (parent : Ip) (forest : Forest Ip) → weight (branches parent forest) ≡ size forest
  weight-branches parent bare = refl
  weight-branches parent (tree a children siblings) = omega (arith, weight-branches parent siblings)

  pub map-append :
      {A : Type 0} (f : Branch Ip → A) (xs ys : List (Branch Ip))
      → map f (xs ++ ys) ≡ map f xs ++ map f ys
  map-append f [] ys = refl
  map-append f (x ∷ xs) ys = ap (◌∷◌ (f x)) (map-append f xs ys)

  pub All-append :
      (P : Branch Ip → Type 0) (xs ys : List (Branch Ip)) → All P xs → All P ys → All P (xs ++ ys)
  All-append P [] ys hx hy = hy
  All-append P (x ∷ xs) ys hx hy = (hx.0, All-append P xs ys hx.1 hy)

  -- What stands at a place of the list, and what does not.
  pub All-apart :
      (P : Branch Ip → Type 0) (xs ys : List (Branch Ip)) (x : Branch Ip)
      → All P (xs ++ x ∷ ys)
      → P x × All P (xs ++ ys)
  All-apart P [] ys x h = h
  All-apart P (z ∷ xs) ys x h = let (here, rest) = All-apart P xs ys x h.1 in (here, (h.0, rest))

module _ {Ip : Type 0} ⦃ip_eq : Eq Ip⦄ where
  -- How often an address is still to be reached.
  abbrev pub outstanding : Ip → List (Branch Ip) → ℕ
  outstanding b [] = 0
  outstanding b (branch ∷ pending) =
      (if b == branch.root then 1 else 0) + (occurrences b branch.children + outstanding b pending)

  pub outstanding-append :
      (b : Ip) (xs ys : List (Branch Ip))
      → outstanding b (xs ++ ys) ≡ outstanding b xs + outstanding b ys
  outstanding-append b [] ys = omega arith
  outstanding-append b (x ∷ xs) ys = omega (arith, outstanding-append b xs ys)

  pub outstanding-branches :
      (b parent : Ip) (forest : Forest Ip)
      → outstanding b (branches parent forest) ≡ occurrences b forest
  outstanding-branches b parent bare = refl
  outstanding-branches b parent (tree a children siblings) =
      omega (arith, outstanding-branches b parent siblings)

module _ {Ip : Type 0} ⦃ip_eq : Eq Ip⦄ (net : Platform Ip) where
  pub map-branches :
      (data' : Archive) (parent : Ip) (forest : Forest Ip)
      → map (frame_of data') (branches parent forest) ≡ frames_to net parent data' (roots forest)
  map-branches data' parent bare = refl
  map-branches data' parent (tree a children siblings) =
      ap (◌∷◌ (record { from_ip = parent; to_ip = a; data' = data' }))
        (map-branches data' parent siblings)

  -- The wiring of a branch.
  abbrev pub IsReady : Nodes net → Branch Ip → Type 0
  IsReady nodes branch =
      ((others net branch.parent (nodes branch.root).peers ≡ roots branch.children)
        × (is_this_node net branch.parent (nodes branch.root) ≡ false))
      × IsWired net nodes branch.root branch.children

  pub branches-IsReady :
      (nodes : Nodes net) (parent : Ip) (forest : Forest Ip)
      → IsWired net nodes parent forest
      → All (IsReady nodes) (branches parent forest)
  branches-IsReady nodes parent bare h = tt
  branches-IsReady nodes parent (tree a children siblings) h =
      ((h.0, h.1.0), branches-IsReady nodes parent siblings h.1.1)

  pub IsReady-same :
      (nodes nodes' : Nodes net) (pending : List (Branch Ip))
      → ((b : Ip) → (new : List (Prio Ip)) × HasQueued net new (nodes b) (nodes' b))
      → All (IsReady nodes) pending
      → All (IsReady nodes') pending
  IsReady-same nodes nodes' [] same h = tt
  IsReady-same nodes nodes' (branch ∷ pending) same h =
      let (new, (queue, (peers, ip))) = same branch.root in
      (
        (
          (rw peers h.0.0.0, rw ip h.0.0.1),
          IsWired-same net nodes nodes' branch.root branch.children same h.0.1,
        ),
        IsReady-same nodes nodes' pending same h.1,
      )
