-- ===== src/Context/Regs/Laws.antt =====
-- A switch of idker/src/context/switch.rs and the switch back.
use idkernel.Base.{ℕ, ◌≡◌, ◌/◌, ◌%◌, refl, ◌∙◌, arith}
use idkernel.Context.Regs.{ContextRegs, switch_task}

-- The flags of RFLAGS that arithmetic leaves alone: without carry, parity, auxiliary carry, zero,
-- sign and overflow (the bits 0, 2, 4, 6, 7 and 11).
pub record ControlFlags : Type 0 where
  pub bit1 : ℕ
  pub bit3 : ℕ
  pub bit5 : ℕ
  pub trap_interrupt_direction : ℕ
  pub from_bit12 : ℕ

abbrev pub control_flags : ℕ → ControlFlags
control_flags flags = record {
  bit1 = flags / 2 % 2;
  bit3 = flags / 8 % 2;
  bit5 = flags / 32 % 2;
  trap_interrupt_direction = flags / 256 % 8;
  from_bit12 = flags / 4096;
}

-- The context of the task that stops: what the processor held, with the flags as they are after
-- the comparison, and with the page table that the context had.
pub switch_task_from :
    (flags_after : ℕ → ℕ → ℕ → ℕ) (a b cpu : ContextRegs)
    → (switch_task flags_after a b cpu).from
      ≡ record cpu { cr3 = a.cr3; rflags = flags_after cpu.cr3 b.cr3 cpu.rflags }
unfolding switch_task
switch_task_from flags_after a b cpu = ground arith

-- The task switched to runs on exactly its saved registers.
pub switch_task_cpu :
    (flags_after : ℕ → ℕ → ℕ → ℕ) (a b cpu : ContextRegs)
    → (switch_task flags_after a b cpu).cpu ≡ b
unfolding switch_task
switch_task_cpu flags_after a b cpu = ground arith

-- Let the switch away change none but the status flags (carry, parity, auxiliary carry, zero, sign,
-- overflow) before it saves the flags. Then a task that is switched away from and later switched
-- back to, whatever the processor holds and does to the flags then, goes on with all its registers
-- as they were and its other flags as they were, except that the page table is the one of its
-- context.
pub switch_task_back :
    (flags_after flags_later : ℕ → ℕ → ℕ → ℕ)
    → ((old new flags : ℕ) → control_flags (flags_after old new flags) ≡ control_flags flags)
    → (a b cpu later : ContextRegs)
    → (back : ContextRegs) × ((switch_task flags_later b
          (switch_task flags_after a b cpu).from
          later).cpu
        ≡ back)
      × (record back { rflags = cpu.rflags } ≡ record cpu { cr3 = a.cr3 })
      × (control_flags back.rflags ≡ control_flags cpu.rflags)
switch_task_back flags_after flags_later keeps a b cpu later = (
  record cpu { cr3 = a.cr3; rflags = flags_after cpu.cr3 b.cr3 cpu.rflags },
  switch_task_cpu flags_later b (switch_task flags_after a b cpu).from later
      ∙ switch_task_from flags_after a b cpu,
  refl,
  keeps cpu.cr3 b.cr3 cpu.rflags,
)
