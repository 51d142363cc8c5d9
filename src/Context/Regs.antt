-- ===== src/Context/Regs.antt =====
-- idker/src/context/switch.rs: the registers that a switch saves and loads, as the instructions
-- of `switch_task` move them between the processor and the two contexts.
pub mod Laws
use idkernel.Base.{ℕ, ◌+◌, ◌-◌, if◌then◌else◌, ◌==◌}

pub record ContextRegs : Type 0 where
  pub cr3 : ℕ
  pub rbx : ℕ
  pub rbp : ℕ
  pub r12 : ℕ
  pub r13 : ℕ
  pub r14 : ℕ
  pub r15 : ℕ
  pub rsp : ℕ
  pub rflags : ℕ

-- `ContextRegs::default()`.
abbrev pub no_regs : ContextRegs
no_regs = record {
  cr3 = 0;
  rbx = 0;
  rbp = 0;
  r12 = 0;
  r13 = 0;
  r14 = 0;
  r15 = 0;
  rsp = 0;
  rflags = 0;
}

-- `reload_cr3`, given the frame of the page table.
unfoldable pub reload_cr3 : ℕ → ContextRegs → ContextRegs
reload_cr3 frame regs = record regs { cr3 = frame }

-- `push_stack`: the word goes to the new top of the stack.
unfoldable pub push_stack : ℕ → ContextRegs × (ℕ → ℕ) → ContextRegs × (ℕ → ℕ)
push_stack val (regs, memory) =
    let top = regs.rsp - 8 in
    (record regs { rsp = top }, λ at. if at == top then val else memory at)

-- What `switch_task` leaves: the contexts of the two tasks and the processor. The page table of
-- the task that stops is not read back, and `cr3` is written only if it differs.
pub record Switched : Type 0 where
  pub from : ContextRegs
  pub to : ContextRegs
  pub cpu : ContextRegs

-- The `mov` pairs in order, then the flags by way of the stack. The comparison of the page tables,
-- and the write of `cr3` where they differ, change the status flags before `pushfq` reads them: what
-- the processor then has in RFLAGS is `flags_after`, of the page table before, the one after and
-- the flags at the entry.
unfoldable pub switch_task : (ℕ → ℕ → ℕ → ℕ) → ContextRegs → ContextRegs → ContextRegs → Switched
switch_task flags_after from to cpu =
    let old = cpu.cr3 in
    let new = to.cr3 in
    let cpu1 = record cpu {
      cr3 = if old == new then old else new;
      rflags = flags_after old new cpu.rflags;
    } in
    let from1 = record from {
      rbx = cpu1.rbx;
      rbp = cpu1.rbp;
      r12 = cpu1.r12;
      r13 = cpu1.r13;
      r14 = cpu1.r14;
      r15 = cpu1.r15;
      rsp = cpu1.rsp;
    } in
    let cpu2 = record cpu1 {
      rbx = to.rbx;
      rbp = to.rbp;
      r12 = to.r12;
      r13 = to.r13;
      r14 = to.r14;
      r15 = to.r15;
      rsp = to.rsp;
    } in
    record {
      from = record from1 { rflags = cpu2.rflags };
      to = to;
      cpu = record cpu2 { rflags = to.rflags };
    }
