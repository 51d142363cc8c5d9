-- ===== src/Boot/Laws.antt =====
-- What `run_executor` of idker/src/main.rs starts from.
use idkernel.Base.{ℕ, ◌+◌, ◌*◌, ◌-◌, ◌≡◌, none, some, [], ◌∷◌, ok, arith, if◌then◌else◌, ◌==◌}
use idkernel.Context.Lock.{SpinRwLock, unlocked}
use idkernel.Context.Regs.{ContextRegs, reload_cr3, push_stack}
use idkernel.Context.Registry.{add, add_to_parent, write_cell, queue_for_execution, new}
use idkernel.Context.Task.{TaskContext, Mappings, sleepy, user, create_init, create, first_regs}
use idkernel.Context.Kernel.{Kernel, create_task, allocate_pid}
use idkernel.Capability.Storage.{empty}
use idkernel.File.InitFs.{InitDir, from_init_dir}
use idkernel.File.ProcFs.{mount, new as new_root}
use idkernel.File.Storage.{new as new_files}
use idkernel.Boot.{before, set_current_task_id, with_init_directory, make_first_tasks}

-- The address of the top word of the first process' kernel stack of 16 KiB.
abbrev pub top_word : Mappings → ℕ
top_word m = m.kernel_stack + 16 * 1024 - 8

-- The idle task, with the first process as its child and nothing else: no file, no capability.
unfoldable pub idle_task : ℕ → TaskContext
idle_task frame = record {
  id = 1;
  parent = none;
  children = 2 ∷ [];
  state = sleepy;
  arch_regs = record {
    cr3 = frame;
    rbx = 0;
    rbp = 0;
    r12 = 0;
    r13 = 0;
    r14 = 0;
    r15 = 0;
    rsp = 0;
    rflags = 0;
  };
  capabilities = record { next_handle = 0; handles = [] };
  files = record { root = record { proc = 1; mounts = [] }; handles = []; next_descriptor = 1 };
  page_table = frame;
  kernel_stack = none;
  user_stack = none;
  user_entry_point = 0;
}

-- The first process: the folder is mounted under the name "init".
unfoldable pub first_task : Mappings → InitDir → TaskContext
first_task m dir = record {
  id = 2;
  parent = some 1;
  children = [];
  state = user;
  arch_regs = record {
    cr3 = m.frame;
    rbx = 0;
    rbp = 0;
    r12 = 0;
    r13 = 0;
    r14 = 0;
    r15 = 0;
    rsp = top_word m;
    rflags = 0;
  };
  capabilities = record { next_handle = 0; handles = [] };
  files = record {
    root = record {
      proc = 2;
      mounts =
          (
            105 ∷ 110 ∷ 105 ∷ 116 ∷ [],
            record { path = 105 ∷ 110 ∷ 105 ∷ 116 ∷ []; dir = dir; opened_file = none },
          )
          ∷ [];
    };
    handles = [];
    next_descriptor = 1;
  };
  page_table = m.frame;
  kernel_stack = some m.kernel_stack;
  user_stack = some m.user_stack;
  user_entry_point = 0;
}

unfoldable pub started :
    ℕ → Mappings → ℕ → InitDir → ContextRegs → (ℕ → ℕ → ℕ → ℕ) → (ℕ → ℕ) → Kernel
started frame m entry dir cpu flags_after memory = record {
  registry = record {
    tasks =
        (1, record { lock = unlocked; context = idle_task frame })
        ∷ (2, record { lock = unlocked; context = first_task m dir })
        ∷ [];
    executable_tasks = 2 ∷ [];
  };
  task_id = 1;
  next_pid = 3;
  switch_locks = none;
  cpu = cpu;
  memory = λ at. if at == top_word m then entry else memory at;
  flags_after = flags_after;
}

module _ (sp : SpinRwLock) (frame : ℕ) (m : Mappings) (entry : ℕ) (dir : InitDir)
    (cpu : ContextRegs) (flags_after : ℕ → ℕ → ℕ → ℕ) (memory : ℕ → ℕ) where
  -- From the statics as they start, `run_executor` makes its first tasks without an error: the idle
  -- task 1 is current and has the first process, task 2, as its child, which alone is queued. The
  -- idle task sleeps on the page table in use. The first process is in user state on its own page
  -- table, its stack pointer is at the top word of its kernel stack of 16 KiB, where the address to
  -- start at is written, and its only mount is the built-in directory, under the name of `init`.
  -- Neither has a capability or an open file, both are unlocked, and the next pid is 3.
  pub make_first_tasks_lem :
      make_first_tasks sp {E = ⊥} frame m entry dir (before cpu flags_after memory)
      ≡ ok tt (started frame m entry dir cpu flags_after memory)
  unfolding make_first_tasks before started idle_task first_task set_current_task_id create_task
      allocate_pid add add_to_parent write_cell queue_for_execution new create_init create
      with_init_directory first_regs push_stack reload_cr3 empty new_files new_root mount
      from_init_dir
  make_first_tasks_lem = ground (arith, sp.write_unlocked)
