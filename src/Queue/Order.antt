-- ===== src/Queue/Order.antt =====
-- The order in which queued messages are served.
use mathlib.Core.List.Perm
use cpe400_peer_2_peer_file.Base.{
  ℕ, ◌<◌, ◌≤◌, Bool, true, false, List, [], ◌∷◌, Option, none, some, if◌then◌else◌, ◌≡◌, refl, ap,
  subst, ◌⊎◌, inl, inr, arith, All, Perm,
}
use cpe400_peer_2_peer_file.Base.Outcome.{Outcome, returns, undefined, >>=-eq-returns}
use cpe400_peer_2_peer_file.Messages.{
  MessageType, initial_sync_request, connect, payload, resend_request, link_lost, Body, fits,
}
use cpe400_peer_2_peer_file.Node.{Prio}
use cpe400_peer_2_peer_file.Queue.{is_file_type, timestamp_of, prio_comp, take_top}

abbrev pub NoNewer : Option ℕ → Option ℕ → Type 0
NoNewer (some b) (some a) = b ≤ a
NoNewer _ _ = Unit {0}

-- The types that the mask takes for file types, though their messages are no FileMessages.
abbrev pub is_mistaken : MessageType → Bool
is_mistaken initial_sync_request = true
is_mistaken connect = true
is_mistaken payload = true
is_mistaken resend_request = true
is_mistaken link_lost = true
is_mistaken _ = false

module _ {Ip : Type 0} where
  -- The time stamp by which the queue places an entry, if it does.
  abbrev pub stamp : Prio Ip → Option ℕ
  stamp p = if is_file_type p.message.type then timestamp_of p.message.body else none

  -- An entry that the queue places by a time stamp has one.
  abbrev pub IsComparable : Prio Ip → Type 0
  IsComparable p =
      (is_file_type p.message.type ≡ false) ⊎ ((t : ℕ) × (timestamp_of p.message.body ≡ some t))

  -- The first entry goes before the second by its priority, or has the same priority and, where both
  -- have one, no earlier time stamp.
  abbrev pub Leads : Prio Ip → Prio Ip → Type 0
  Leads t y = (t.priority < y.priority) ⊎ ((t.priority ≡ y.priority) × NoNewer (stamp y) (stamp t))

  prio_comp-total :
      (c x : Prio Ip)
      → IsComparable c
      → IsComparable x
      → (prio_comp c x ≡ returns true) ⊎ (prio_comp c x ≡ returns false)
  unfolding prio_comp
  prio_comp-total c x hc hx = ground arith

  -- An entry that is not to be served after another leads it.
  prio_comp-false :
      (c x : Prio Ip) → IsComparable c → IsComparable x → prio_comp c x ≡ returns false → Leads c x
  unfolding prio_comp
  prio_comp-false c x hc hx e = ground arith

  -- One that is to be served after another is led by it, and by all that it leads itself.
  prio_comp-true :
      (c x y : Prio Ip)
      → IsComparable c
      → IsComparable x
      → IsComparable y
      → prio_comp c x ≡ returns true
      → Leads c y
      → Leads x y
  unfolding prio_comp
  prio_comp-true c x y hc hx hy e l = ground arith

  Leads-refl : (c : Prio Ip) → IsComparable c → Leads c c
  Leads-refl c h = ground arith

  -- What taking the top of a queue gives: the entries of the queue, one of which leads the others.
  pub record Served (c : Prio Ip) (rest : List (Prio Ip)) : Type 0 where
    pub top : Prio Ip
    pub others : List (Prio Ip)
    pub result : take_top c rest ≡ returns (top, others)
    pub same : Perm (top ∷ others) (c ∷ rest)
    pub leads : All (Leads top) others
    pub leads_for : (y : Prio Ip) → IsComparable y → Leads c y → Leads top y

  -- The top of a queue whose entries can be compared: no other entry has a lower priority number, and
  -- of two messages about files with one priority the later time stamp is served first.
  pub take_top-Served :
      (c : Prio Ip) (rest : List (Prio Ip)) → IsComparable c → All IsComparable rest → Served c rest
  unfolding take_top
  take_top-Served c [] hc h = record {
    top = c;
    others = [];
    result = refl;
    same = Perm.refl _;
    leads = tt;
    leads_for = λ y _ l. l;
  }
  take_top-Served c (x ∷ rest) hc h = elim (prio_comp-total c x hc h.0) [
    | inl after ↦
        let served = take_top-Served x rest h.0 h.1 in
        let gives : take_top c (x ∷ rest) ≡ returns (served.top, c ∷ served.others) =
          rw (after, served.result) in
        record {
          top = served.top;
          others = c ∷ served.others;
          result = gives;
          same = Perm.trans (Perm.swap c served.top served.others) (Perm.cons c served.same);
          leads = (
            served.leads_for c hc (prio_comp-true c x c hc h.0 hc after (Leads-refl c hc)),
            served.leads,
          );
          leads_for = λ y hy l. served.leads_for y hy (prio_comp-true c x y hc h.0 hy after l);
        }
    | inr before ↦
        let served = take_top-Served c rest hc h.1 in
        let gives : take_top c (x ∷ rest) ≡ returns (served.top, x ∷ served.others) =
          rw (before, served.result) in
        record {
          top = served.top;
          others = x ∷ served.others;
          result = gives;
          same =
              Perm.trans (Perm.swap x served.top served.others)
                (Perm.trans (Perm.cons x served.same) (Perm.swap c x rest));
          leads = (served.leads_for x h.0 (prio_comp-false c x hc h.0 before), served.leads);
          leads_for = served.leads_for;
        }
  ]

  mistaken-is_file_type :
      (type : MessageType) (body : Body Ip)
      → is_mistaken type ≡ true
      → fits type body ≡ true
      → (is_file_type type ≡ true) × (timestamp_of body ≡ none)
  unfolding is_file_type
  mistaken-is_file_type initial_sync_request body h k = ground arith
  mistaken-is_file_type _ body h k = ground arith

  -- Two messages of one priority whose types the mask takes for file types, the first being no
  -- FileMessage: comparing them, either way round, reads a time stamp that the first does not have.
  pub prio_comp_undefined :
      (a b : Prio Ip)
      → a.priority ≡ b.priority
      → is_mistaken a.message.type ≡ true
      → fits a.message.type a.message.body ≡ true
      → is_file_type b.message.type ≡ true
      → (prio_comp a b ≡ undefined) × (prio_comp b a ≡ undefined)
  unfolding prio_comp
  prio_comp_undefined a b same h k f =
      ground (arith, mistaken-is_file_type a.message.type a.message.body h k)

  unfoldable pub result_or :
      Prio Ip × List (Prio Ip) → Outcome (Prio Ip × List (Prio Ip)) → Prio Ip × List (Prio Ip)
  result_or d (returns r) = r
  result_or d _ = d

  if-holds : (P : Prio Ip → Type 0) (b : Bool) (x y : Prio Ip) → P x → P y → P (if b then x else y)
  if-holds P true x y hx hy = hx
  if-holds P false x y hx hy = hy

  -- What holds of every entry of a queue holds of the top and of the others.
  pub take_top-All :
      (P : Prio Ip → Type 0) (c : Prio Ip) (rest : List (Prio Ip)) (top : Prio Ip)
      (others : List (Prio Ip))
      → All P (c ∷ rest)
      → take_top c rest ≡ returns (top, others)
      → P top × All P others
  unfolding take_top result_or
  take_top-All P c [] top others h e = subst (λ r. P r.0 × All P r.1) (ap (result_or (c, [])) e) h
  take_top-All P c (x ∷ rest) top others h e =
      let (after, _, e') = >>=-eq-returns (prio_comp c x) _ e in
      let ((t, o), e₁, e₂) = >>=-eq-returns (take_top (if after then x else c) rest) _ e' in
      let ih =
        take_top-All P (if after then x else c) rest t o (if-holds P after x c h.1.0 h.0, h.1.1)
          e₁ in
      subst (λ r. P r.0 × All P r.1) (ap (result_or (top, others)) e₂)
        (ih.0, (if-holds P after c x h.0 h.1.0, ih.1))
