-- ===== src/System.antt =====
-- The kernel as its users run it: `run_executor` of idker/src/main.rs, then the first process, system
-- calls (idker/src/syscalls/mod.rs) and rounds of the idle task, in any order.
pub mod Soundness
pub mod Exit
use idkernel.Base.{ℕ, ◌≡◌, Str, Outcome, ok, [], Prog}
use idkernel.Boot.{before, make_first_tasks, executor_round}
use idkernel.Context.Lock.{SpinRwLock}
use idkernel.Context.Regs.{ContextRegs}
use idkernel.Context.Task.{Mappings}
use idkernel.Context.Kernel.{Kernel}
use idkernel.Dispatch.{AllSavedRegisters, Environment, on_symcall_1}
use idkernel.File.InitFs.{InitDir}
use idkernel.Loader.Elf.{ElfFormat}
use idkernel.Loader.Init.{start_initproc}
use idkernel.Machine.{Machine, in_kernel}
use idkernel.Memory.{Paging}

-- What the machine starts from.
pub record Start (paging : Paging) : Type 0 where
  pub cpu : ContextRegs
  pub flags_after : ℕ → ℕ → ℕ → ℕ
  pub memory : ℕ → ℕ
  pub tables : paging.Tables
  pub frames : ℕ → Str
  pub frame : ℕ
  pub mappings : Mappings
  pub entry : ℕ
  pub dir : InitDir

module _ (paging : Paging) (sp : SpinRwLock) where
  unfoldable pub at_start : Start paging → Machine paging
  at_start s = record {
    kernel = before s.cpu s.flags_after s.memory;
    tables = s.tables;
    frames = s.frames;
  }

  abbrev pub boot : Start paging → Prog (Machine paging) ⊥ (Unit {0})
  boot s = in_kernel paging (make_first_tasks sp s.frame s.mappings s.entry s.dir)

  -- What the machine gets to, each call with answers of its own from outside.
  pub data Reaches (s : Start paging) : Machine paging → Type 0 where
    booted : (m : Machine paging) → boot s (at_start s) ≡ ok tt m → Reaches s m
    round :
        (m m' : Machine paging)
        → Reaches s m
        → in_kernel paging {E = ⊥} (executor_round sp) m ≡ ok tt m'
        → Reaches s m'
    first_process :
        (format : ElfFormat) (m m' : Machine paging) (x : ℕ × ℕ)
        → Reaches s m
        → start_initproc {E = ⊥} format paging sp s.dir m ≡ ok x m'
        → Reaches s m'
    call :
        (env : Environment) (regs r : AllSavedRegisters) (m m' : Machine paging)
        → Reaches s m
        → on_symcall_1 env paging sp regs m ≡ ok r m'
        → Reaches s m'
