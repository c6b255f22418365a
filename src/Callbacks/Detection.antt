-- ===== src/Callbacks/Detection.antt =====
-- Which changes of a file the callbacks tell the network, and what they record of it.
use cpe400_peer_2_peer_file.Base.{some, Eq, path_eq, ◌≡◌, arith, Perm}
use cpe400_peer_2_peer_file.Base.Outcome.{returns}
use cpe400_peer_2_peer_file.Base.Dict
use cpe400_peer_2_peer_file.Text.{Text, hash}
use cpe400_peer_2_peer_file.Text.Hash.{hash-perm}
use cpe400_peer_2_peer_file.Paths.{FilePath, wnts_path}
use cpe400_peer_2_peer_file.Platform.{Platform}
use cpe400_peer_2_peer_file.Disk.{File, file, file_bytes, saved_hash, read_file}
use cpe400_peer_2_peer_file.Node.{Node}
use cpe400_peer_2_peer_file.Callbacks.{on_file_created_or_modified}

module _ {Ip : Type 0} ⦃ip_eq : Eq Ip⦄ (net : Platform Ip) where
  -- A file whose bytes were only put in another order since its hash was saved is not sent: the
  -- callback leaves the node as it is.
  pub on_file_created_or_modified_permuted :
      (path : FilePath) (old new : Text) (node : Node Ip) (f g : File Ip)
      → Dict.lookup path node.disk ≡ some (file f)
      → f.content ≡ file_bytes new
      → Dict.lookup (wnts_path path) node.disk ≡ some (file g)
      → g.content ≡ saved_hash (hash old)
      → Perm old new
      → on_file_created_or_modified net path node ≡ returns node
  unfolding on_file_created_or_modified read_file
  on_file_created_or_modified_permuted path old new node f g here content saved is_hash same =
      ground (arith, hash-perm same)
