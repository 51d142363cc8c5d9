-- ===== src/Tests/Loader.antt =====
-- Runs of the loader and of the dispatch of system calls on the kernel of the tests.
use idkernel.Base.{
  ℕ, str_eq, ◌≡◌, refl, true, false, some, List, [], ◌∷◌, ◌==◌, if◌then◌else◌, Str, Outcome, Option,
  none, ok, err, panic, hang, Ensures,
}
use idkernel.Context.Lock.{plain_lock}
use idkernel.Dispatch.{AllSavedRegisters, Environment, on_symcall_1}
use idkernel.Dispatch.Laws.{Answered, on_symcall_1-Answered, on_symcall_1_unknown}
use idkernel.Loader.Elf.{
  ElfFormat, Space, page_image, mount_pages, expect_frame, expect_map, write_frame, new, header,
  mount_into, mount_all, program_headers, mount_program,
}
use idkernel.Loader.Exec.{exec, load_elf}
use idkernel.Loader.Exec.Laws.{Refuses, exec-Refuses}
use idkernel.Machine.{Machine, hold_write}
use idkernel.Memory.{PageTableFlags}
use idkernel.File.InitFs.{entry, nil, file, find_entry}
use idkernel.Loader.Init.{start_initproc, initproc}
use idkernel.Context.Kernel.{current_task, current_task_id, on_context}
use idkernel.Userspace.{check_addr_userspace}
use idkernel.Tests.Data.{kernel, plain_paging}

-- Files whose headers are the same whatever their bytes.
abbrev pub format : ElfFormat
format = record {
  sizeof_ehdr = 4;
  sizeof_phdr = 2;
  elfmag = 0x7f ∷ [];
  pt_load = 1;
  from_bytes = λ bytes. record { e_ident = bytes; e_phoff = 4; e_phnum = 1; e_entry = 0x4000 };
  nth_program_header = λ bytes n. record {
    p_type = 1;
    readable = true;
    writable = false;
    executable = true;
    p_offset = 0;
    p_vaddr = 0x4000;
    p_filesz = 4;
    p_memsz = 0x2000;
  };
}

abbrev pub machine : Machine plain_paging
machine = record { kernel = kernel; tables = []; frames = λ f. [] }

exec-Refuses_example :
    Refuses format plain_paging machine (exec format plain_paging plain_lock 3 (λ n. true) 3 0)
exec-Refuses_example = exec-Refuses format plain_paging plain_lock machine 3 (λ n. true) 3 0

abbrev read_only : PageTableFlags
read_only = record { writable = false; no_execute = true; bit_10 = false }

abbrev program : Str
program = 1 ∷ 2 ∷ 3 ∷ []

abbrev two_pages : List ℕ
two_pages = 0x4000 ∷ 0x5000 ∷ []

abbrev fresh : Space plain_paging
fresh = ([], λ f. [])

abbrev loaded : Space plain_paging
loaded = (
  (0x5000, 8) ∷ (0x4000, 7) ∷ [],
  λ f. if f == 8 then page_image 16 program else if f == 7 then page_image 16 program else [],
)

abbrev pub environment : Environment
environment = record {
  outside = record {
    user_bytes = λ at len. [];
    is_utf8 = λ s. true;
    interleaved = λ names s. names;
  };
  format = format;
  try_new = λ n. some n;
  reserved = true;
  reserves = λ n. true;
  mappings = record { kernel_stack = 0x10000; user_stack = 0x20000; frame = 9 };
  entry = 0x1000;
  rounds = 3;
}

-- The saved registers of a call of the given number on the caller's first capability.
abbrev pub regs_with : ℕ → AllSavedRegisters
regs_with sel = record {
  rflags = 2;
  rax = sel;
  rbx = 11;
  rcx = 12;
  rdx = 0;
  rbp = 14;
  rsi = 1;
  rdi = 0;
  r8 = 17;
  r9 = 18;
  r10 = 19;
  r11 = 20;
  r12 = 21;
  r13 = 22;
  r14 = 23;
  r15 = 24;
}

on_symcall_1-Answered_example :
    Ensures
      (λ r t. Answered (regs_with 0x101) r)
      (λ t. ⊥)
      machine
      (on_symcall_1 environment plain_paging plain_lock (regs_with 0x101))
on_symcall_1-Answered_example =
    on_symcall_1-Answered environment plain_paging plain_lock (regs_with 0x101) machine

-- A number between those of two calls, and one of a call that Nobody serves.
on_symcall_1_unknown_example :
    on_symcall_1 environment plain_paging plain_lock (regs_with 0x203) machine
    ≡ ok (regs_with 1) machine
on_symcall_1_unknown_example =
    on_symcall_1_unknown environment plain_paging plain_lock (regs_with 0x203) machine refl

abbrev result_of : {S E A : Type 0} → Outcome S E A → Option A
result_of (ok a s) = some a
result_of (err e s) = none
result_of panic = none
result_of hang = none

-- The first process of a directory that has one enters user space at its entry point.
first_process :
    result_of (
      start_initproc {E = ⊥} format plain_paging plain_lock
        (entry initproc (file (127 ∷ 2 ∷ 3 ∷ 4 ∷ 5 ∷ 6 ∷ 7 ∷ 8 ∷ [])) nil)
        machine)
    ≡ some (0x4000, 0x4000FF80)
unfolding start_initproc find_entry str_eq new header current_task current_task_id hold_write
    load_elf on_context mount_into mount_all program_headers mount_program check_addr_userspace
    mount_pages expect_frame expect_map write_frame
first_process = refl
