-- ===== src/Life/Loading.antt =====
-- A message that was read has the members of the class that it was read as.
use cpe400_peer_2_peer_file.Base.{ℕ, true, ◌∷◌, Option, none, some, ◌≡◌, refl, ap, ◌∙◌, arith}
use cpe400_peer_2_peer_file.Platform.{Platform}
use cpe400_peer_2_peer_file.Messages.{MessageType, Body, fits, Message}
use cpe400_peer_2_peer_file.Messages.Archive.{
  Archive, octet, Reader, ◌>>=◌, read_number, read_text, read_count, read_many, load_path,
}
use cpe400_peer_2_peer_file.Messages.Wire.{
  type_of_code, Class, message_class, payload_class, resend_class, file_class, content_class,
  sync_class, connect_class, class_of_body, load_ip, load_header, load_peer, load_members,
  load_message,
}
use cpe400_peer_2_peer_file.Routing.{Intake, intake_of}

-- A property of what is read, if it can be.
abbrev pub Yields : {A : Type 0} → (A → Type 0) → Option (A × Archive) → Type 0
Yields P none = Unit
Yields P (some (a, rest)) = P a

-- What follows, whatever the first value is.
then-Yields :
    {A B : Type 0} (Q : B → Type 0) (m : Reader A) (f : A → Reader B)
    → ((a : A) (ar : Archive) → Yields Q (f a ar))
    → (ar : Archive) → Yields Q ((m >>= f) ar)
then-Yields Q m f h ar =
    elim (m ar) as (λ r. Yields Q (elim r [ none ↦ none | some (a, rest) ↦ f a rest ])) [
      | none ↦ tt
      | some (a, rest) ↦ h a rest
    ]

bind-Yields :
    {A B : Type 0} (P : A → Type 0) (Q : B → Type 0) (m : Reader A) (f : A → Reader B)
    (ar : Archive)
    → Yields P (m ar)
    → ((a : A) (rest : Archive) → P a → Yields Q (f a rest))
    → Yields Q ((m >>= f) ar)
bind-Yields P Q m f ar first next =
    elim (m ar)
        as (λ r. Yields P r → Yields Q (elim r [ none ↦ none | some (a, rest) ↦ f a rest ])) [
          | none ↦ λ h. tt
          | some (a, rest) ↦ λ h. next a rest h
        ]
      first

module _ {Ip : Type 0} (net : Platform Ip) where
  abbrev HasClass : Class → Body Ip → Type 0
  HasClass class body = class_of_body body ≡ class

  load_members-HasClass :
      (class : Class) (ar : Archive) → Yields (HasClass class) (load_members net class ar)
  unfolding load_members
  load_members-HasClass message_class ar = refl
  load_members-HasClass payload_class ar =
      then-Yields (HasClass payload_class) read_text _ (λ t rest. refl) ar
  load_members-HasClass resend_class ar =
      then-Yields (HasClass resend_class) read_number _
        (λ n. then-Yields (HasClass resend_class) (load_ip net) _ (λ t rest. refl)) ar
  load_members-HasClass file_class ar =
      then-Yields (HasClass file_class) load_path _
        (λ p. then-Yields (HasClass file_class) read_number _ (λ t rest. refl)) ar
  load_members-HasClass content_class ar =
      then-Yields (HasClass content_class) load_path _
        (λ p.
          then-Yields (HasClass content_class) read_number _
            (λ t. then-Yields (HasClass content_class) read_text _ (λ c rest. refl)))
        ar
  load_members-HasClass sync_class ar =
      then-Yields (HasClass sync_class) load_path _
        (λ p. then-Yields (HasClass sync_class) read_number _ (λ t.
          then-Yields (HasClass sync_class) read_text _ (λ c.
            then-Yields (HasClass sync_class) read_number _
              (λ n. then-Yields (HasClass sync_class) read_number _ (λ k rest. refl)))))
        ar
  load_members-HasClass connect_class ar =
      then-Yields (HasClass connect_class) read_count _
        (λ n. then-Yields (HasClass connect_class) (read_many (load_peer net) n) _ (λ peers.
          then-Yields (HasClass connect_class) read_count _ (λ k.
            then-Yields (HasClass connect_class) (read_many load_path k) _ (λ paths rest. refl))))
        ar

  abbrev HasType : MessageType → Message Ip → Type 0
  HasType type m = m.type ≡ type

  load_header-HasType :
      (code : ℕ) (ar : Archive)
      → Yields (HasType (type_of_code code)) (load_header net (octet code ∷ ar))
  unfolding load_header
  load_header-HasType code ar =
      then-Yields (HasType (type_of_code code)) (load_ip net) _
        (λ receiver. then-Yields (HasType (type_of_code code)) (load_ip net) _ (λ originator.
          then-Yields (HasType (type_of_code code)) read_number _ (λ hash rest. refl)))
        ar

  abbrev pub IsFit : Message Ip → Type 0
  IsFit m = fits m.type m.body ≡ true

  -- What a type is taken in as are the members that fit it.
  intake_of-fits :
      (type : MessageType) (how : Intake) (body : Body Ip)
      → intake_of type ≡ some how
      → class_of_body body ≡ how.class
      → fits type body ≡ true
  intake_of-fits type how body known same = ground arith

  pub load_message-IsFit :
      (code : ℕ) (how : Intake) (ar : Archive)
      → intake_of (type_of_code code) ≡ some how
      → Yields IsFit (load_message net how.class (octet code ∷ ar))
  unfolding load_message
  load_message-IsFit code how ar known =
      bind-Yields (HasType (type_of_code code)) IsFit (load_header net) _ (octet code ∷ ar)
        (load_header-HasType code ar)
        (λ m rest typed.
          bind-Yields (HasClass how.class) IsFit (load_members net how.class) _ rest
            (load_members-HasClass how.class rest)
            (λ body left same. intake_of-fits m.type how body (ap intake_of typed ∙ known) same))
