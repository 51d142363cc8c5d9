-- ===== src/Tests/Processes.antt =====
-- Runs of the process system calls on the kernel of the tests.
use idkernel.Base.{
  ℕ, ◌+◌, ◌/◌, ◌%◌, ◌==◌, if◌then◌else◌, ◌≡◌, ◌≢◌, refl, ok, hang, some, none, [], ◌∷◌, ◌>>=◌,
  arith,
}
use idkernel.Abi.{SyscallError}
use idkernel.Capability.{is_process_spawn}
use idkernel.Context.Lock.{unlocked, plain_lock}
use idkernel.Context.Regs.{ContextRegs, switch_task}
use idkernel.Context.Regs.Laws.{control_flags, switch_task_back}
use idkernel.Context.Registry.{get_task, add, remove}
use idkernel.Context.Registry.Laws.{remove-add, fresh_cell}
use idkernel.Context.Task.{user}
use idkernel.Context.Kernel.{Kernel, cell_of}
use idkernel.Context.Kernel.Laws.{Running}
use idkernel.Context.Kernel.Switching.Laws.{Ready}
use idkernel.Context.Process.{spawn_capability, spawn, exit, yield}
use idkernel.Context.Process.Laws.{exit_hangs, spawn_lem, yield_round_robin}
use idkernel.Context.Process.Fairness.{Waiting, yields, yields-Waiting}
use idkernel.Context.Registry.{Cell}
use idkernel.Tests.Data.{
  kernel, caller, child, idle, cell, registry, task, regs_of, no_capabilities,
}

three_two : ◌≢◌ {A = ℕ} 3 2
three_two = ground arith

two_zero : ◌≢◌ {A = ℕ} 2 0
two_zero = ground arith

abbrev ready : Ready kernel caller child 3
ready = record {
  running = refl;
  waiting = refl;
  apart = three_two;
  named = two_zero;
  identity = refl;
  from_free = refl;
  next_free = refl;
}

caller-Running : Running kernel caller
caller-Running = record { registered = refl; free = refl; named = two_zero }

free_id : get_task 5 registry ≡ none
unfolding get_task
free_id = refl

parent_there : get_task 2 registry ≡ some caller
unfolding get_task
parent_there = refl

exit_hangs_example : exit plain_lock kernel ≡ hang
exit_hangs_example = exit_hangs plain_lock kernel caller child ready

-- The caller holds a capability to spawn, and pid 4 is free.
spawn_lem_example :
    spawn plain_lock
      (record { kernel_stack = 0x10000; user_stack = 0x20000; frame = 9 })
      0x400
      kernel
    ≡ hang
unfolding spawn_capability is_process_spawn
spawn_lem_example =
    spawn_lem plain_lock (record { kernel_stack = 0x10000; user_stack = 0x20000; frame = 9 }) 0x400
      kernel caller caller-Running

-- A processor that sets the flag zero, where it is clear, if the page tables are the same.
abbrev zero_flag : ℕ → ℕ → ℕ → ℕ
zero_flag old new flags =
    if old == new then (if flags / 64 % 2 == 0 then flags + 64 else flags) else flags

zero_flag_kept : (old new flags : ℕ) → control_flags (zero_flag old new flags) ≡ control_flags flags
zero_flag_kept old new flags = ground arith

switch_task_back_example :
    (back : ContextRegs) × ((switch_task zero_flag
        (regs_of 3)
        (switch_task zero_flag (regs_of 2) (regs_of 3) (regs_of 7)).from
        (regs_of 8)).cpu
      ≡ back)
    × (record back { rflags = 0 } ≡ record (regs_of 7) { cr3 = 2 })
    × (control_flags back.rflags ≡ control_flags 0)
switch_task_back_example =
    switch_task_back zero_flag zero_flag zero_flag_kept (regs_of 2) (regs_of 3) (regs_of 7)
      (regs_of 8)

remove-add_example :
    (add plain_lock {E = SyscallError} (task 5 (some 2) [] user no_capabilities) >>= λ _.
    remove plain_lock 5)
      registry
    ≡ ok (some (fresh_cell (task 5 (some 2) [] user no_capabilities))) registry
remove-add_example =
    remove-add plain_lock (task 5 (some 2) [] user no_capabilities) 2 caller registry refl free_id
      parent_there refl refl

yield_round_robin_example :
    (k' : Kernel) × (yield plain_lock kernel ≡ ok tt k')
    × (k'.task_id ≡ 3)
    × (k'.registry.executable_tasks ≡ 2 ∷ [])
    × (k'.cpu ≡ regs_of 3)
    × (cell_of 2 k'
        ≡ some (record {
          lock = unlocked;
          context = record (caller.context) {
            arch_regs = record (kernel.cpu) {
              cr3 = 2;
              rflags = kernel.flags_after kernel.cpu.cr3 3 0;
            };
          };
        }))
    × (cell_of 3 k' ≡ some child)
    × ((q : ℕ) → q ≢ 2 → q ≢ 3 → cell_of q k' ≡ cell_of q kernel)
yield_round_robin_example = yield_round_robin plain_lock kernel caller child 3 [] ready refl refl

-- A second child waits behind the first.
abbrev sibling : Cell
sibling = cell (task 4 (some 2) [] user no_capabilities)

abbrev three_tasks : Kernel
three_tasks = record kernel {
  registry = record {
    tasks = (1, idle) ∷ (2, caller) ∷ (3, child) ∷ (4, sibling) ∷ [];
    executable_tasks = 3 ∷ 4 ∷ [];
  };
}

three_zero : ◌≢◌ {A = ℕ} 3 0
three_zero = ground arith

four_zero : ◌≢◌ {A = ℕ} 4 0
four_zero = ground arith

four_two : ◌≢◌ {A = ℕ} 4 2
four_two = ground arith

four_three : ◌≢◌ {A = ℕ} 4 3
four_three = ground arith

three_tasks-Waiting : Waiting three_tasks (3 ∷ 4 ∷ [])
three_tasks-Waiting = record {
  queued = refl;
  runnable = (
    record {
      cell = caller;
      registered = refl;
      free = refl;
      live = refl;
      identity = refl;
      named = two_zero;
    },
    (
      record {
        cell = child;
        registered = refl;
        free = refl;
        live = refl;
        identity = refl;
        named = three_zero;
      },
      (
        record {
          cell = sibling;
          registered = refl;
          free = refl;
          live = refl;
          identity = refl;
          named = four_zero;
        },
        tt,
      ),
    ),
  );
  distinct = ((three_two, (four_two, tt)), ((four_three, tt), (tt, tt)));
}

yields-Waiting_example :
    (k' : Kernel) × (yields plain_lock 2 three_tasks ≡ ok tt k')
    × (k'.task_id ≡ 4)
    × Waiting k' (2 ∷ 3 ∷ [])
yields-Waiting_example = yields-Waiting plain_lock three_tasks (3 ∷ []) 4 [] three_tasks-Waiting
