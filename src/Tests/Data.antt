-- ===== src/Tests/Data.antt =====
-- A kernel with the idle task 1, a running task 2 and its child 3.
use idkernel.Base.{
  ℕ, true, false, Option, none, some, List, [], ◌∷◌, ◌-◌, ◌+◌, ◌%◌, ◌^◌, ◌==◌, if◌then◌else◌,
  length,
}
use idkernel.Capability.{Capability, Perms, map_physical, process_spawn}
use idkernel.Capability.Storage.{Storage}
use idkernel.Context.Lock.{unlocked}
use idkernel.Context.Regs.{ContextRegs, no_regs}
use idkernel.Context.Task.{TaskContext, TaskState, sleepy, user}
use idkernel.Context.Registry.{Cell, Registry}
use idkernel.Context.Kernel.{Kernel}
use idkernel.Memory.{Paging, mapped}

abbrev pub free_perms : Perms
free_perms = record { duplicate = true; shareable = true; transfer = true }

abbrev pub no_perms : Perms
no_perms = record { duplicate = false; shareable = false; transfer = false }

abbrev pub range_capability : Capability
range_capability = record { perms = free_perms; ctype = map_physical 0x1000 0x9000 }

abbrev pub spawn_right : Capability
spawn_right = record { perms = no_perms; ctype = process_spawn }

abbrev pub two_capabilities : Storage
two_capabilities = record {
  next_handle = 2;
  handles = (0, range_capability) ∷ (1, spawn_right) ∷ [];
}

abbrev pub no_capabilities : Storage
no_capabilities = record { next_handle = 0; handles = [] }

abbrev pub regs_of : ℕ → ContextRegs
regs_of n = record no_regs { cr3 = n; rbx = n; rsp = n }

abbrev pub task : ℕ → Option ℕ → List ℕ → TaskState → Storage → TaskContext
task id parent children state capabilities = record {
  id = id;
  parent = parent;
  children = children;
  state = state;
  arch_regs = regs_of id;
  capabilities = capabilities;
  files = record { root = record { proc = id; mounts = [] }; handles = []; next_descriptor = 1 };
  page_table = id;
  kernel_stack = none;
  user_stack = none;
  user_entry_point = 0;
}

abbrev pub cell : TaskContext → Cell
cell c = record { lock = unlocked; context = c }

abbrev pub idle : Cell
idle = cell (task 1 none (2 ∷ []) sleepy no_capabilities)

abbrev pub caller : Cell
caller = cell (task 2 (some 1) (3 ∷ []) user two_capabilities)

abbrev pub child : Cell
child = cell (task 3 (some 2) [] user no_capabilities)

abbrev pub registry : Registry
registry = record { tasks = (1, idle) ∷ (2, caller) ∷ (3, child) ∷ []; executable_tasks = 3 ∷ [] }

abbrev pub kernel : Kernel
kernel = record {
  registry = registry;
  task_id = 2;
  next_pid = 4;
  switch_locks = none;
  flags_after = λ old new flags. flags - flags % 256 + flags % 2 + (if old == new then 64 else 0);
  cpu = regs_of 7;
  memory = λ at. 0;
}

-- Page tables as the pairs mapped, and frames by number.
abbrev pub plain_paging : Paging
plain_paging = record {
  Tables = List (ℕ × ℕ);
  virt_addr = λ n. some n;
  phys_addr = λ n. some n;
  new_truncate = λ n. n % 2 ^ 52;
  page_start = λ n. n % 4096 == 0;
  frame_start = λ n. n % 4096 == 0;
  containing = λ n. n - n % 4096;
  range = λ from to. from ∷ [];
  range_inclusive = λ from to. from ∷ [];
  allocate_frame = λ tables. (some (length tables + 7), tables);
  map_to = λ table page frame flags tables. (mapped, (page, frame) ∷ tables);
  map_to_with_table_flags = λ page frame flags tables. (mapped, (page, frame) ∷ tables);
}
