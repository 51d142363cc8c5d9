-- ===== src/Tests/System.antt =====
-- The kernel of idker/src/main.rs from its start to the first process and a system call of it.
use idkernel.Base.{
  ℕ, ◌≢◌, arith, some, none, ◌≡◌, refl, [], ◌∷◌, Outcome, ok, err, panic, hang, str_eq,
}
use idkernel.Boot.{
  before, make_first_tasks, executor_round, set_current_task_id, with_init_directory,
}
use idkernel.Boot.Laws.{started, make_first_tasks_lem}
use idkernel.Context.Lock.{plain_lock}
use idkernel.Context.Registry.{add, new, add_to_parent, write_cell, queue_for_execution}
use idkernel.Context.Task.{create_init, create}
use idkernel.Context.Kernel.Switching.{switch_to_next_task, switch_to, after_task_switch, pop_next}
use idkernel.Context.Process.{mypid}
use idkernel.Abi.{code_from, code_number}
use idkernel.Loader.Elf.{
  new as new_elf, header, mount_into, mount_all, program_headers, mount_program, mount_pages,
  expect_frame, expect_map, write_frame,
}
use idkernel.Loader.Exec.{load_elf}
use idkernel.Userspace.{check_addr_userspace}
use idkernel.Context.Kernel.{create_task, allocate_pid, current_task, current_task_id, on_context}
use idkernel.Context.Kernel.Sound.{Sound, Nobody}
use idkernel.Dispatch.{handle, on_symcall_1}
use idkernel.File.InitFs.{InitDir, entry, nil, file, find_entry}
use idkernel.Loader.Init.{start_initproc, initproc}
use idkernel.Machine.{Machine, in_kernel, hold_write}
use idkernel.System.{Start, boot, at_start, booted, round, first_process, call}
use idkernel.System.Soundness.{Reaches-Sound}
use idkernel.Context.Kernel.Switching.RoundRobin.{first_of_queue}
use idkernel.Context.Kernel.{Kernel, cell_of}
use idkernel.Context.Process.{exit}
use idkernel.Context.Registry.{Cell}
use idkernel.System.{Reaches}
use idkernel.System.Exit.{Reaches-exit}
use idkernel.Tests.Data.{idle, plain_paging, regs_of}
use idkernel.Tests.Loader.{environment, format, regs_with}

abbrev first_dir : InitDir
first_dir = entry initproc (file (127 ∷ 2 ∷ 3 ∷ 4 ∷ 5 ∷ 6 ∷ 7 ∷ 8 ∷ [])) nil

abbrev start : Start plain_paging
start = record {
  cpu = regs_of 7;
  flags_after = λ old new flags. flags;
  memory = λ at. 0;
  tables = [];
  frames = λ f. [];
  frame = 4;
  mappings = record { kernel_stack = 0x10000; user_stack = 0x20000; frame = 9 };
  entry = 0x1000;
  dir = first_dir;
}

abbrev off : Machine plain_paging
off = at_start plain_paging plain_lock start

-- The machine after a run, or the one that is off.
abbrev after : {A : Type 0} → Outcome (Machine plain_paging) ⊥ A → Machine plain_paging
after (ok a m) = m
after (err e m) = off
after panic = off
after hang = off

make_first_tasks_lem_example :
    make_first_tasks plain_lock {E = ⊥} 4 start.mappings 0x1000 first_dir
      (before (regs_of 7) (λ old new flags. flags) (λ at. 0))
    ≡ ok tt
        (started 4 start.mappings 0x1000 first_dir (regs_of 7) (λ old new flags. flags) (λ at. 0))
make_first_tasks_lem_example =
    make_first_tasks_lem plain_lock 4 start.mappings 0x1000 first_dir (regs_of 7)
      (λ old new flags. flags) (λ at. 0)

abbrev on : Machine plain_paging
on = after (boot plain_paging plain_lock start off)

abbrev switched : Machine plain_paging
switched = after (in_kernel plain_paging {E = ⊥} (executor_round plain_lock) on)

abbrev loaded : Machine plain_paging
loaded = after (start_initproc {E = ⊥} format plain_paging plain_lock first_dir switched)

-- The first process asks for its pid.
abbrev asked : Machine plain_paging
asked = after (on_symcall_1 environment plain_paging plain_lock (regs_with 0x400) loaded)

on_run : boot plain_paging plain_lock start off ≡ ok tt on
unfolding before make_first_tasks add at_start new add_to_parent create_init set_current_task_id
    create_task allocate_pid with_init_directory create write_cell queue_for_execution
on_run = refl

switched_run : in_kernel plain_paging {E = ⊥} (executor_round plain_lock) on ≡ ok tt switched
unfolding before make_first_tasks add at_start new add_to_parent create_init set_current_task_id
    create_task allocate_pid with_init_directory create write_cell queue_for_execution
    executor_round switch_to_next_task switch_to after_task_switch pop_next current_task_id
switched_run = refl

loaded_run :
    start_initproc {E = ⊥} format plain_paging plain_lock first_dir switched
    ≡ ok (0x4000, 0x4000FF80) loaded
unfolding before make_first_tasks add at_start new add_to_parent create_init set_current_task_id
    create_task allocate_pid with_init_directory create write_cell queue_for_execution
    executor_round switch_to_next_task switch_to after_task_switch pop_next current_task_id
    start_initproc find_entry str_eq new_elf header current_task hold_write load_elf on_context
    mount_into mount_all program_headers mount_program check_addr_userspace mount_pages expect_frame
    expect_map write_frame
loaded_run = refl

asked_run :
    on_symcall_1 environment plain_paging plain_lock (regs_with 0x400) loaded
    ≡ ok (record (regs_with 0) { rdi = 2 }) asked
unfolding before make_first_tasks add at_start new add_to_parent create_init set_current_task_id
    create_task allocate_pid with_init_directory create write_cell queue_for_execution
    executor_round switch_to_next_task switch_to after_task_switch pop_next current_task_id
    start_initproc find_entry str_eq new_elf header current_task hold_write load_elf on_context
    mount_into mount_all program_headers mount_program check_addr_userspace mount_pages expect_frame
    expect_map write_frame on_symcall_1 handle mypid code_from code_number
asked_run = refl

asked_reached : Reaches plain_paging plain_lock start asked
asked_reached =
    call environment (regs_with 0x400) (record (regs_with 0) { rdi = 2 }) loaded asked
      (first_process format switched loaded (0x4000, 0x4000FF80)
        (round on switched (booted on on_run) switched_run) loaded_run)
      asked_run

Reaches-Sound_example : Sound Nobody asked.kernel
Reaches-Sound_example = Reaches-Sound plain_paging plain_lock start asked asked_reached

-- The cell of a task, or the one of the idle task of the tests.
abbrev cell_in : Kernel → ℕ → Cell
cell_in k q = elim (cell_of q k) [ none ↦ idle | some c ↦ c ]

asked_cell :
    cell_of asked.kernel.task_id asked.kernel ≡ some (cell_in asked.kernel asked.kernel.task_id)
unfolding before make_first_tasks add at_start new add_to_parent create_init set_current_task_id
    create_task allocate_pid with_init_directory create write_cell queue_for_execution
    executor_round switch_to_next_task switch_to after_task_switch pop_next current_task_id
    start_initproc find_entry str_eq new_elf header current_task hold_write load_elf on_context
    mount_into mount_all program_headers mount_program check_addr_userspace mount_pages expect_frame
    expect_map write_frame on_symcall_1 handle mypid code_from code_number
asked_cell = refl

idle_cell :
    cell_of (first_of_queue asked.kernel.registry.executable_tasks) asked.kernel
    ≡ some (cell_in asked.kernel (first_of_queue asked.kernel.registry.executable_tasks))
unfolding before make_first_tasks add at_start new add_to_parent create_init set_current_task_id
    create_task allocate_pid with_init_directory create write_cell queue_for_execution
    executor_round switch_to_next_task switch_to after_task_switch pop_next current_task_id
    start_initproc find_entry str_eq new_elf header current_task hold_write load_elf on_context
    mount_into mount_all program_headers mount_program check_addr_userspace mount_pages expect_frame
    expect_map write_frame on_symcall_1 handle mypid code_from code_number
idle_cell = refl

asked_id : asked.kernel.task_id ≡ 2
unfolding before make_first_tasks add at_start new add_to_parent create_init set_current_task_id
    create_task allocate_pid with_init_directory create write_cell queue_for_execution
    executor_round switch_to_next_task switch_to after_task_switch pop_next current_task_id
    start_initproc find_entry str_eq new_elf header current_task hold_write load_elf on_context
    mount_into mount_all program_headers mount_program check_addr_userspace mount_pages expect_frame
    expect_map write_frame on_symcall_1 handle mypid code_from code_number
asked_id = refl

asked_next : first_of_queue asked.kernel.registry.executable_tasks ≡ 1
unfolding before make_first_tasks add at_start new add_to_parent create_init set_current_task_id
    create_task allocate_pid with_init_directory create write_cell queue_for_execution
    executor_round switch_to_next_task switch_to after_task_switch pop_next current_task_id
    start_initproc find_entry str_eq new_elf header current_task hold_write load_elf on_context
    mount_into mount_all program_headers mount_program check_addr_userspace mount_pages expect_frame
    expect_map write_frame on_symcall_1 handle mypid code_from code_number
asked_next = refl

named : asked.kernel.task_id ≢ 0
named e = absurd (omega (arith, asked_id, e))

apart : first_of_queue asked.kernel.registry.executable_tasks ≢ asked.kernel.task_id
apart e = absurd (omega (arith, asked_id, asked_next, e))

-- The first process cannot end.
Reaches-exit_example : exit plain_lock asked.kernel ≡ hang
Reaches-exit_example =
    Reaches-exit plain_paging plain_lock start asked (cell_in asked.kernel asked.kernel.task_id)
      (cell_in asked.kernel (first_of_queue asked.kernel.registry.executable_tasks)) asked_reached
      asked_cell named idle_cell apart
