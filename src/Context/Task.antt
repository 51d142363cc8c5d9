-- ===== src/Context/Task.antt =====
-- idker/src/context/task.rs: `TaskContext` and its creation. What the allocator and the memory
-- mapping hand out (stacks, page table) comes in as a `Mappings`.
use idkernel.Base.{ℕ, ◌+◌, ◌*◌, Option, none, some, List, []}
use idkernel.Capability.Storage
use idkernel.Capability.Storage.{Storage}
use idkernel.File.Storage as Files
use idkernel.File.Storage.{Storage as FileStorage}
use idkernel.Context.Regs.{ContextRegs, no_regs, reload_cr3, push_stack}

pub data TaskState : Type 0 where
  sleepy user dying : TaskState

abbrev pub kernel_stack_size : ℕ
kernel_stack_size = 16 * 1024

pub record TaskContext : Type 0 where
  pub id : ℕ
  pub parent : Option ℕ
  pub children : List ℕ
  pub state : TaskState
  pub arch_regs : ContextRegs
  pub capabilities : Storage
  pub files : FileStorage
  pub page_table : ℕ
  pub kernel_stack : Option ℕ
  pub user_stack : Option ℕ
  pub user_entry_point : ℕ

-- The addresses of the boxed stacks, and the frame of the page table.
pub record Mappings : Type 0 where
  pub kernel_stack : ℕ
  pub user_stack : ℕ
  pub frame : ℕ

-- `create_init`, on the page table that is in use.
unfoldable pub create_init : ℕ → TaskContext
create_init frame = record {
  id = 1;
  parent = none;
  children = [];
  state = sleepy;
  arch_regs = reload_cr3 frame no_regs;
  capabilities = Storage.empty;
  files = Files.new 1;
  page_table = frame;
  kernel_stack = none;
  user_stack = none;
  user_entry_point = 0;
}

-- The registers of a new task: the first `ret` on its stack goes to `func`.
unfoldable pub first_regs : ℕ → Mappings → (ℕ → ℕ) → ContextRegs × (ℕ → ℕ)
first_regs func m memory =
    push_stack func
      (record (reload_cr3 m.frame no_regs) { rsp = m.kernel_stack + kernel_stack_size }, memory)

-- `create`, its pid drawn before, without the mapping of the user stack.
unfoldable pub create : ℕ → ℕ → ContextRegs → Mappings → TaskContext
create id parent regs m = record {
  id = id;
  parent = some parent;
  children = [];
  state = user;
  arch_regs = regs;
  capabilities = Storage.empty;
  files = Files.new id;
  page_table = m.frame;
  kernel_stack = some m.kernel_stack;
  user_stack = some m.user_stack;
  user_entry_point = 0;
}
