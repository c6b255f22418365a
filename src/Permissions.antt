-- ===== src/Permissions.antt =====
-- The permission bits of files, as far as the program reads and changes them (the mask writePerms of
-- message_manager.cpp).
use cpe400_peer_2_peer_file.Base.{ℕ, Bool, true, false, not, ◌&&◌, ◌||◌}

-- owner_write, group_write and others_write
pub record WriteBits : Type 0 where
  pub owner : Bool
  pub group : Bool
  pub others : Bool

pub record Perms : Type 0 where
  pub write : WriteBits
  -- The other bits, which nothing changes
  pub rest : ℕ

-- perms::none
abbrev pub no_bits : WriteBits
no_bits = record { owner = false; group = false; others = false }

abbrev pub all_bits : WriteBits
all_bits = record { owner = true; group = true; others = true }

-- a | b
abbrev pub bits_or : WriteBits → WriteBits → WriteBits
bits_or a b = record {
  owner = a.owner || b.owner;
  group = a.group || b.group;
  others = a.others || b.others;
}

-- a & ~b
abbrev pub bits_without : WriteBits → WriteBits → WriteBits
bits_without a b = record {
  owner = a.owner && not b.owner;
  group = a.group && not b.group;
  others = a.others && not b.others;
}

-- a == perms::none
abbrev pub is_none : WriteBits → Bool
is_none a = not (a.owner || (a.group || a.others))
