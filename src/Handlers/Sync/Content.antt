-- ===== src/Handlers/Sync/Content.antt =====
-- What the initial sync carries of a file's content.
use cpe400_peer_2_peer_file.Base.{ℕ, [], ◌∷◌, ◌++◌, some, Eq, path_eq, ◌≡◌, refl, ◌≢◌, All, arith}
use cpe400_peer_2_peer_file.Base.Dict
use cpe400_peer_2_peer_file.Text.{Text}
use cpe400_peer_2_peer_file.Paths.{FilePath}
use cpe400_peer_2_peer_file.Platform.{Platform}
use cpe400_peer_2_peer_file.Messages.{sync_body}
use cpe400_peer_2_peer_file.Disk.{File, file, file_bytes, read_file}
use cpe400_peer_2_peer_file.Node.{Node}
use cpe400_peer_2_peer_file.Handlers.Sync.{up_to_nul, sync_message}

-- A text without a zero byte.
abbrev pub NoZero : Text → Type 0
NoZero = All (λ c. (let zero_byte : ℕ = 0 in c ≢ zero_byte))

up_to_nul-NoZero : (content : Text) → NoZero content → up_to_nul content ≡ content
unfolding up_to_nul
up_to_nul-NoZero [] h = refl
up_to_nul-NoZero (c ∷ rest) h = ground (arith, h.0, up_to_nul-NoZero rest h.1)

up_to_nul-append : (before after : Text) → NoZero before → up_to_nul (before ++ 0 ∷ after) ≡ before
unfolding up_to_nul
up_to_nul-append [] after h = ground arith
up_to_nul-append (c ∷ before) after h = ground (arith, h.0, up_to_nul-append before after h.1)

module _ {Ip : Type 0} ⦃ip_eq : Eq Ip⦄ (net : Platform Ip) where
  -- The message for a file whose content has no zero byte carries all of it.
  sync_message_whole :
      (path : FilePath) (index total : ℕ) (node : Node Ip) (f : File Ip) (content : Text)
      → Dict.lookup path node.disk ≡ some (file f)
      → f.content ≡ file_bytes content
      → NoZero content
      → (sync_message net path index total node).body ≡ sync_body path node.now content total index
  unfolding read_file
  sync_message_whole path index total node f content here is_content h =
      ground (arith, up_to_nul-NoZero content h)

  -- The message for a file whose content has a zero byte carries what stands before the first one.
  sync_message_cut :
      (path : FilePath) (index total : ℕ) (node : Node Ip) (f : File Ip) (before after : Text)
      → Dict.lookup path node.disk ≡ some (file f)
      → f.content ≡ file_bytes (before ++ 0 ∷ after)
      → NoZero before
      → (sync_message net path index total node).body ≡ sync_body path node.now before total index
  unfolding read_file
  sync_message_cut path index total node f before after here is_content h =
      ground (arith, up_to_nul-append before after h)
