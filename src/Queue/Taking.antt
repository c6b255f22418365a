-- ===== src/Queue/Taking.antt =====
-- What the top of the queue and the others make up.
use cpe400_peer_2_peer_file.Base.{
  suc, Bool, true, false, List, [], ◌∷◌, if◌then◌else◌, ◌≡◌, refl, ap, subst, arith, All, length,
}
use cpe400_peer_2_peer_file.Base.Outcome.{returns, >>=-eq-returns}
use cpe400_peer_2_peer_file.Node.{Prio}
use cpe400_peer_2_peer_file.Queue.{prio_comp, take_top}
use cpe400_peer_2_peer_file.Queue.Order.{result_or}

module _ {Ip : Type 0} where
  -- The top and the others are as many as the queue had, and a predicate that holds of them holds of
  -- every entry of it.
  abbrev pub IsWhole : (Prio Ip → Type 0) → List (Prio Ip) → Prio Ip × List (Prio Ip) → Type 0
  IsWhole P queue (top, others) =
      (length queue ≡ suc (length others)) × (P top → All P others → All P queue)

  put_back :
      (P : Prio Ip → Type 0) (after : Bool) (c x t : Prio Ip) (rest o : List (Prio Ip))
      → IsWhole P ((if after then x else c) ∷ rest) (t, o)
      → IsWhole P (c ∷ x ∷ rest) (t, (if after then c else x) ∷ o)
  put_back P true c x t rest o (long, back) =
      (omega (arith, long), λ ht ho. let h = back ht ho.1 in (ho.0, (h.0, h.1)))
  put_back P false c x t rest o (long, back) =
      (omega (arith, long), λ ht ho. let h = back ht ho.1 in (h.0, (ho.0, h.1)))

  pub take_top-IsWhole :
      (P : Prio Ip → Type 0) (c : Prio Ip) (rest : List (Prio Ip)) (top : Prio Ip)
      (others : List (Prio Ip))
      → take_top c rest ≡ returns (top, others)
      → IsWhole P (c ∷ rest) (top, others)
  unfolding take_top result_or
  take_top-IsWhole P c [] top others e =
      subst (IsWhole P (c ∷ [])) (ap (result_or (c, [])) e) (refl, λ h _. (h, tt))
  take_top-IsWhole P c (x ∷ rest) top others e =
      let (after, _, e') = >>=-eq-returns (prio_comp c x) _ e in
      let ((t, o), e₁, e₂) = >>=-eq-returns (take_top (if after then x else c) rest) _ e' in
      subst (IsWhole P (c ∷ x ∷ rest)) (ap (result_or (top, others)) e₂)
        (put_back P after c x t rest o (take_top-IsWhole P (if after then x else c) rest t o e₁))
