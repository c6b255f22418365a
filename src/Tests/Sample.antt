-- ===== src/Tests/Sample.antt =====
-- A small network to evaluate the model on: addresses are numbers.
use cpe400_peer_2_peer_file.Base.{
  ℕ, true, false, ◌||◌, [], ◌∷◌, Eq, ℕ_discrete, eqb, ltb, refl, arith,
}
use cpe400_peer_2_peer_file.Text.{Text, codes}
use cpe400_peer_2_peer_file.Paths.{FilePath}
use cpe400_peer_2_peer_file.Permissions.{WriteBits}
use cpe400_peer_2_peer_file.Platform.{Platform, IsLawful}
use cpe400_peer_2_peer_file.Messages.{MessageType, Message, Body}
use cpe400_peer_2_peer_file.Disk.{file_bytes, File, directory, file, Disk}
use cpe400_peer_2_peer_file.Node.{Node, Peer, fresh_peer}

instance unfoldable pub number_eq : Eq ℕ
unfolding ℕ_discrete
number_eq = record { dec = ℕ_discrete }

abbrev pub first_byte : Text → ℕ
first_byte [] = 0
first_byte (b ∷ rest) = b

abbrev pub owner_bit : WriteBits
owner_bit = record { owner = true; group = false; others = false }

abbrev pub sample_net : Platform ℕ
sample_net = record {
  ipv6_unspecified = 0;
  ipv4_unspecified = 1;
  ipv6_loopback = 2;
  ipv4_loopback = 3;
  is_valid = λ a. ltb 3 a;
  ip_text = λ a. a ∷ [];
  is_ipv4 = λ a. eqb a 1 || eqb a 3;
  ip_bytes = λ a. a ∷ [];
  ip_of_ipv4 = first_byte;
  ip_of_ipv6 = first_byte;
  ipv4_family = 2;
  ipv6_family = 10;
  ctime = λ t. t ∷ [];
  clock_in = 0;
  clock_out = 0;
  file_clock_in = 0;
  file_clock_out = 0;
  created_perms = record { write = owner_bit; rest = 0 };
  archive_bytes = λ ar. [];
  message_size = 0;
  remember = λ m ms. m ∷ ms;
  handling_time = λ m now. 250;
  sweeping_time = λ now. 400;
  reachable = λ a port. eqb port 90;
}

pub sample_net-IsLawful : IsLawful sample_net
sample_net-IsLawful = record {
  ipv4_bytes = λ a h. refl;
  ipv6_bytes = λ a h. refl;
  families_differ = λ e. absurd (omega (arith, e));
}

abbrev pub folder : FilePath
folder = codes "s" ∷ []

abbrev pub target : FilePath
target = codes "s" ∷ codes "f" ∷ []

abbrev pub a_file : File ℕ
a_file = record {
  content = file_bytes (codes "ab");
  perms = record { write = owner_bit; rest = 0 };
  modified = 0;
}

abbrev pub a_peer : ℕ → Peer ℕ
a_peer a = fresh_peer (a, 80)

-- Node 5, connected to 6, its gateway, and to 7.
abbrev pub node_on : Disk ℕ → Node ℕ
node_on disk = record {
  ip = 5;
  now = 1000;
  disk = disk;
  folders = folder ∷ [];
  received_initial_files = 1;
  total_initial_files = 1;
  message_queue = [];
  old_messages = [];
  peers = a_peer 6 ∷ a_peer 7 ∷ [];
  gateway_ip = 6;
  backup_peers = (7, 80) ∷ (8, 90) ∷ [];
  sent = [];
}

abbrev pub a_disk : Disk ℕ
a_disk = (folder, directory) ∷ (target, file a_file) ∷ []

abbrev pub a_node : Node ℕ
a_node = node_on a_disk

-- A message of a node to everyone.
abbrev pub message_of : MessageType → ℕ → Body ℕ → Message ℕ
message_of type originator body = record {
  type = type;
  receiver_node = 0;
  sender_node = 0;
  originator_node = originator;
  message_hash = 0;
  body = body;
}
