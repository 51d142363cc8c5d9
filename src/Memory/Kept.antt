-- ===== src/Memory/Kept.antt =====
-- The invariant of the kernel's state under the system calls of idker/src/syscalls/memory.rs.
use idkernel.Base.{
  ℕ, ◌+◌, ◌-◌, ◌^◌, ◌%◌, ◌==◌, Bool, leb, ltb, find, true, Prog, Keeps, bind-Keeps, pure-Keeps,
  guard-Keeps, assert-Keeps, unwrap-Keeps, ok_or-Keeps, zoom-Keeps, any-Keeps,
}
use idkernel.Abi.{SyscallError, wrong_parameters, wrong_capability}
use idkernel.Capability.{CapabilityType, is_map_virtual_to_ram}
use idkernel.Context.Lock.{SpinRwLock}
use idkernel.Context.Kernel.{Kernel}
use idkernel.Context.Kernel.Kept.{current_task-Keeps, read_context-Keeps}
use idkernel.Context.Kernel.Sound.{Sound}
use idkernel.File.Syscalls.Calls.{check_addr_userspace-Keeps}
use idkernel.Memory.{
  Paging, flags_from, start_of, zip, covers, parse_page_range, map_fresh, map_pairs, on_kernel,
  on_tables, authorized, map_virt, map_phys,
}

module _ {S : Type 0} {I : S → Type 0} where
  flags_from-Keeps : (perms : ℕ) → Keeps I (flags_from perms)
  unfolding flags_from
  flags_from-Keeps perms =
      bind-Keeps (guard-Keeps (perms % 2 == 1) wrong_parameters) λ _. pure-Keeps _

  start_of-Keeps : (is_start : ℕ → Bool) (addr : ℕ) → Keeps I (start_of is_start addr)
  unfolding start_of
  start_of-Keeps is_start addr =
      bind-Keeps (guard-Keeps (is_start addr) wrong_parameters) λ _. pure-Keeps addr

authorized-Keeps :
    {held : ℕ → Type 0} (sp : SpinRwLock) (paging : Paging) (test : CapabilityType → Bool)
    → Keeps (Sound held) (authorized paging sp test)
unfolding authorized
authorized-Keeps sp paging test = bind-Keeps current_task-Keeps λ me.
    bind-Keeps (read_context-Keeps sp me) λ task.
      bind-Keeps
        (ok_or-Keeps (find (λ x. test x.1.ctype) task.capabilities.handles) wrong_capability)
        λ _. pure-Keeps tt

module _ (paging : Paging) where
  open paging use {Tables, virt_addr, phys_addr, new_truncate, page_start, frame_start, range}

  parse_page_range-Keeps :
      {S : Type 0} {I : S → Type 0} (at len : ℕ) → Keeps I (parse_page_range paging at len)
  unfolding parse_page_range
  parse_page_range-Keeps at len = bind-Keeps (check_addr_userspace-Keeps at) λ _.
      bind-Keeps (assert-Keeps (ltb (at + len) (2 ^ 64))) λ _.
        bind-Keeps (assert-Keeps (leb 1 (at + len))) λ _.
          bind-Keeps (check_addr_userspace-Keeps (at + len - 1)) λ _.
            bind-Keeps (unwrap-Keeps (virt_addr at)) λ start.
              bind-Keeps (start_of-Keeps page_start start) λ start_page.
                bind-Keeps (unwrap-Keeps (virt_addr (start + len))) λ behind.
                  bind-Keeps (start_of-Keeps page_start behind)
                    λ end_page. pure-Keeps (range start_page end_page)

  -- With the page tables beside the kernel.
  abbrev pub SoundPair : (ℕ → Type 0) → Kernel × Tables → Type 0
  SoundPair held s = Sound held s.0

module _ (paging : Paging) {held : ℕ → Type 0} where
  open paging use {Tables, virt_addr, phys_addr, new_truncate, page_start, frame_start, range}

  on_kernel-Keeps :
      {A : Type 0} {m : Prog Kernel SyscallError A}
      → Keeps (Sound held) m
      → Keeps (SoundPair paging held) (on_kernel paging m)
  on_kernel-Keeps h = zoom-Keeps (λ s. s.0) (λ k s. (k, s.1)) h (λ s i. i) λ s k i j. j

  on_tables-Keeps :
      {A : Type 0} (m : Prog Tables SyscallError A)
      → Keeps (SoundPair paging held) (on_tables paging m)
  on_tables-Keeps m = zoom-Keeps (λ s. s.1) (λ t s. (s.0, t)) (any-Keeps m) (λ s i. tt) λ s t i j. i

  module _ (sp : SpinRwLock) where
    pub map_virt-Keeps :
        (at len perms : ℕ) → Keeps (SoundPair paging held) (map_virt paging sp at len perms)
    unfolding map_virt
    map_virt-Keeps at len perms = bind-Keeps (parse_page_range-Keeps paging at len) λ pages.
        bind-Keeps (on_kernel-Keeps (authorized-Keeps sp paging is_map_virtual_to_ram)) λ _.
          bind-Keeps (flags_from-Keeps perms)
            λ flags. on_tables-Keeps (map_fresh paging pages (record flags { bit_10 = true }))

    pub map_phys-Keeps :
        (virt_at virt_len perms phys_at : ℕ)
        → Keeps (SoundPair paging held) (map_phys paging sp virt_at virt_len perms phys_at)
    unfolding map_phys
    map_phys-Keeps virt_at virt_len perms phys_at =
        let from : ℕ = new_truncate phys_at in
        bind-Keeps (parse_page_range-Keeps paging virt_at virt_len) λ pages.
          bind-Keeps (assert-Keeps (ltb (from + virt_len) (2 ^ 64))) λ _.
            bind-Keeps (unwrap-Keeps (phys_addr (from + virt_len))) λ sum.
              bind-Keeps (assert-Keeps (leb 1 sum)) λ _.
                bind-Keeps (unwrap-Keeps (phys_addr (sum - 1))) λ to.
                  bind-Keeps (start_of-Keeps frame_start from) λ frame.
                    bind-Keeps (unwrap-Keeps (phys_addr (to + 1))) λ behind.
                      bind-Keeps (start_of-Keeps frame_start behind) λ end_frame.
                        bind-Keeps (on_kernel-Keeps (authorized-Keeps sp paging (covers from to)))
                          λ _. bind-Keeps (flags_from-Keeps perms) λ flags.
                            on_tables-Keeps
                              (map_pairs paging (zip pages (range frame end_frame)) flags)
