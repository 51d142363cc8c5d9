-- ===== src/Tests/Capabilities.antt =====
-- Runs of the capability system calls on the kernel of the tests.
use idkernel.Base.{
  find, inr, ℕ, ◌≡◌, ◌≢◌, refl, ok, err, true, some, none, inl, ◌∷◌, [], Option, if◌then◌else◌, ltb,
  arith,
}
use idkernel.Abi.{wrong_process}
use idkernel.Capability.{map_physical, is_map_virtual_to_ram}
use idkernel.Memory.{map_virt, map_phys}
use idkernel.Memory.Laws.{Denied, map_virt-Denied, map_phys-Denied}
use idkernel.Capability.Storage.{Storage, lookup, write_back}
use idkernel.Capability.Storage.Laws.{IsValid}
use idkernel.Capability.Syscalls.{clone, restrict, process_share_transfer}
use idkernel.Capability.Syscalls.Laws.{clone_lem, restrict_lem, with_capabilities, KeepsNumbers}
use idkernel.Capability.Syscalls.Transfer.{transfer_lost, hand_to_child}
use idkernel.Context.Lock.{plain_lock}
use idkernel.Context.Kernel.{Kernel, set_context}
use idkernel.Context.Kernel.Laws.{Running}
use idkernel.Tests.Data.{
  kernel, caller, child, range_capability, spawn_right, two_capabilities, plain_paging,
}

two_zero : ◌≢◌ {A = ℕ} 2 0
two_zero = ground arith

caller-Running : Running kernel caller
caller-Running = record { registered = refl; free = refl; named = two_zero }

-- The kernel with another table for the caller.
abbrev caller_with : Storage → Kernel
caller_with caps = set_context 2 (with_capabilities caller.context caps) kernel

first_found : lookup 0 two_capabilities ≡ some range_capability
unfolding lookup
first_found = refl

two_capabilities-IsValid : IsValid two_capabilities
two_capabilities-IsValid = record { handed_out = omega arith }

clone_lem_example :
    clone plain_lock true 0 kernel
    ≡ ok 2 (
        caller_with (record {
          next_handle = 3;
          handles = (0, range_capability) ∷ (1, spawn_right) ∷ (2, range_capability) ∷ [];
        }))
unfolding lookup
clone_lem_example = clone_lem plain_lock kernel caller caller-Running true 0 (omega arith)

-- Physical addresses have 52 bits.
abbrev try_new : ℕ → Option ℕ
try_new n = if ltb n 0x10000000000000 then some n else none

try_new-KeepsNumbers : KeepsNumbers try_new
try_new-KeepsNumbers n = ground arith

restrict_lem_example :
    restrict plain_lock try_new 0 0x2000 0x3000 kernel
    ≡ ok tt (
        caller_with (record {
          next_handle = 2;
          handles =
              (0, record range_capability { ctype = map_physical 0x2000 0x3000 })
              ∷ (1, spawn_right)
              ∷ [];
        }))
unfolding write_back
restrict_lem_example =
    restrict_lem plain_lock kernel caller caller-Running try_new 0 0x2000 0x3000 range_capability
      try_new-KeepsNumbers first_found

four_zero : ◌≢◌ {A = ℕ} 4 0
four_zero = ground arith

four_two : ◌≢◌ {A = ℕ} 4 2
four_two = ground arith

three_zero : ◌≢◌ {A = ℕ} 3 0
three_zero = ground arith

three_two : ◌≢◌ {A = ℕ} 3 2
three_two = ground arith

-- There is no task 4.
transfer_lost_example :
    process_share_transfer plain_lock true 4 0 true kernel
    ≡ err wrong_process (caller_with (record { next_handle = 2; handles = (1, spawn_right) ∷ [] }))
transfer_lost_example =
    transfer_lost plain_lock kernel caller caller-Running true 4 0 range_capability first_found
      four_zero four_two (inl refl)

hand_to_child_example :
    process_share_transfer plain_lock true 3 0 true kernel
    ≡ ok tt (
        set_context 3
          (with_capabilities child.context
            (record { next_handle = 1; handles = (0, range_capability) ∷ [] }))
          (caller_with (record { next_handle = 2; handles = (1, spawn_right) ∷ [] })))
unfolding lookup
hand_to_child_example =
    hand_to_child plain_lock kernel caller caller-Running true 3 0 range_capability
      (record { next_handle = 2; handles = (1, spawn_right) ∷ [] }) child three_zero three_two refl
      refl refl refl (omega arith)

none_maps_ram : find (λ x. is_map_virtual_to_ram x.1.ctype) two_capabilities.handles ≡ none
unfolding is_map_virtual_to_ram
none_maps_ram = refl

map_virt-Denied_example :
    Denied (kernel, []) (map_virt plain_paging plain_lock 0x4000 0x1000 3 (kernel, []))
map_virt-Denied_example =
    map_virt-Denied plain_paging plain_lock 0x4000 0x1000 3 kernel caller [] caller-Running
      none_maps_ram

-- The range of the caller's capability ends before this one does.
map_phys-Denied_example :
    Denied (kernel, []) (map_phys plain_paging plain_lock 0x4000 0x1000 3 0x9000 (kernel, []))
map_phys-Denied_example =
    map_phys-Denied plain_paging plain_lock 0x4000 0x1000 3 0x9000 kernel caller [] (λ n. inr refl)
      caller-Running refl
