-- ===== src/Capability/Data.antt =====
-- idker/src/capability/mod.rs: permissions, capability types and their numbers.
use idkernel.Base.{ℕ, ◌+◌, Bool, true, false, if◌then◌else◌}

-- `CapabilityPerms`, a flag set.
pub record Perms : Type 0 where
  pub duplicate : Bool
  pub shareable : Bool
  pub transfer : Bool

-- `perms.bits()`.
unfoldable pub bits : Perms → ℕ
bits p =
    (if p.duplicate then 0x1 else 0)
    + (if p.shareable then 0x2 else 0)
    + (if p.transfer then 0x4 else 0)

pub data CapabilityType : Type 0 where
  map_physical : ℕ → ℕ → CapabilityType
  map_virtual_to_ram process_spawn channel_create : CapabilityType

pub record Capability : Type 0 where
  pub perms : Perms
  pub ctype : CapabilityType

unfoldable pub cap_id : CapabilityType → ℕ
cap_id (map_physical from to) = 1
cap_id map_virtual_to_ram = 2
cap_id process_spawn = 3
cap_id channel_create = 4

-- `ctype == CapabilityType::ProcessSpawn` and `== CapabilityType::MapVirtualToRam`.
unfoldable pub is_process_spawn : CapabilityType → Bool
is_process_spawn process_spawn = true
is_process_spawn _ = false

unfoldable pub is_map_virtual_to_ram : CapabilityType → Bool
is_map_virtual_to_ram map_virtual_to_ram = true
is_map_virtual_to_ram _ = false
