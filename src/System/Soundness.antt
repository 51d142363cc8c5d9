-- ===== src/System/Soundness.antt =====
-- The invariant in the states that the kernel gets to from `run_executor` of idker/src/main.rs on.
use idkernel.Base.{
  zoom-ok, arith, [], ◌∙◌, ℕ, ◌≡◌, refl, sym, subst, Outcome, ok, err, panic, hang, Prog, Ends,
  Keeps, bind-Keeps, pure-Keeps, get-Keeps, unwrap-Keeps, Ends-Keeps, must,
}
use idkernel.Boot.{make_first_tasks, executor_round}
use idkernel.Boot.Laws.{started, idle_task, first_task, make_first_tasks_lem}
use idkernel.Context.Lock.{SpinRwLock}
use idkernel.Context.Kernel.Kept.{current_task-Keeps, on_context-Keeps}
use idkernel.Context.Kernel.Sound.{Fine, Sound, SoundTasks, Nobody}
use idkernel.Context.Kernel.Switching.Kept.{switch_to_next_task-Keeps}
use idkernel.Dispatch.Kept.{on_symcall_1-Keeps}
use idkernel.File.InitFs.{InitDir, InitDirEntry, file, folder, find_entry}
use idkernel.Context.Registry.Kept.{append-Sound}
use idkernel.Context.Task.{Mappings}
use idkernel.Loader.Elf.{ElfFormat}
use idkernel.Loader.Exec.Kept.{new-Keeps, load_elf-Keeps}
use idkernel.Loader.Init.{start_initproc, initproc, file_content, user_stack_pointer}
use idkernel.Machine.{Machine}
use idkernel.Machine.Kept.{SoundMachine, in_kernel-Keeps, hold_write-Keeps}
use idkernel.Memory.{Paging}
use idkernel.System.{at_start, boot, Start, Reaches, booted, round, first_process, call}

executor_round-Keeps :
    {held : ℕ → Type 0} {E : Type 0} (sp : SpinRwLock)
    → Keeps {E = E} (Sound held) (executor_round sp)
unfolding executor_round
executor_round-Keeps {held} sp = bind-Keeps (switch_to_next_task-Keeps sp held) λ _. pure-Keeps tt

file_content-Keeps :
    {S E : Type 0} {I : S → Type 0} (x : InitDirEntry) → Keeps {E = E} I (file_content x)
file_content-Keeps (file x) = pure-Keeps x
file_content-Keeps (folder d) = Ends-Keeps (file_content (folder d)) λ s i. tt

must-Keeps :
    {S E F A : Type 0} {I : S → Type 0} {m : Prog S E A} → Keeps I m → Keeps {E = F} I (must m)
must-Keeps {S} {E} {F} {A} {I} {m} h = Ends-Keeps (must m) λ s i. go (m s) (h.keeps s i).ends
  where
    go :
        (r : Outcome S E A)
        → Ends (λ _ t. I t) I r
        → Ends {E = F}
            (λ _ t. I t)
            I
            (elim r [ ok a s' ↦ ok a s' | err e s' ↦ panic | panic ↦ panic | hang ↦ hang ])
    go (ok a t) i = i
    go (err e t) i = tt
    go panic i = tt
    go hang i = tt

start_initproc-Keeps :
    {held : ℕ → Type 0} {E : Type 0} (format : ElfFormat) (paging : Paging) (sp : SpinRwLock)
    (dir : InitDir)
    → Keeps {E = E} (SoundMachine paging held) (start_initproc format paging sp dir)
unfolding start_initproc
start_initproc-Keeps format paging sp dir = bind-Keeps (unwrap-Keeps (find_entry initproc dir)) λ x.
    bind-Keeps (file_content-Keeps x) λ bytes.
      bind-Keeps (must-Keeps (new-Keeps format bytes)) λ elf.
        bind-Keeps (in_kernel-Keeps paging current_task-Keeps) λ me. hold_write-Keeps paging sp me (
          bind-Keeps (load_elf-Keeps format paging me elf) λ _.
            bind-Keeps (in_kernel-Keeps paging (on_context-Keeps me get-Keeps))
              λ ctx. pure-Keeps (ctx.user_entry_point, user_stack_pointer))

no_tasks-Sound : {held : ℕ → Type 0} → SoundTasks held []
no_tasks-Sound = record {
  unique = tt;
  fine = λ q c e. absurd (ground (arith, e));
  free = λ q c e. absurd (ground (arith, e));
}

-- A task whose tables hold nothing.
first-Fine : (m : Mappings) (dir : InitDir) → Fine 2 (first_task m dir)
unfolding first_task
first-Fine m dir = record {
  identity = refl;
  handles = record { handed_out = omega arith };
  descriptors = record { handed_out = omega arith };
}

idle-Fine : (frame : ℕ) → Fine 1 (idle_task frame)
unfolding idle_task
idle-Fine frame = record {
  identity = refl;
  handles = record { handed_out = omega arith };
  descriptors = record { handed_out = omega arith };
}

module _ (paging : Paging) (sp : SpinRwLock) (s : Start paging) where
  started-Sound :
      Sound Nobody (started s.frame s.mappings s.entry s.dir s.cpu s.flags_after s.memory)
  unfolding started
  started-Sound =
      append-Sound 2 (first_task s.mappings s.dir) _
        (append-Sound 1 (idle_task s.frame) [] no_tasks-Sound refl (idle-Fine s.frame)) refl
        (first-Fine s.mappings s.dir)

  booted_lem :
      boot paging sp s (at_start paging sp s)
      ≡ ok tt (record (at_start paging sp s) {
        kernel = started s.frame s.mappings s.entry s.dir s.cpu s.flags_after s.memory;
      })
  unfolding at_start
  booted_lem =
      zoom-ok (λ m. m.kernel) (λ k m. record m { kernel = k })
        (make_first_tasks sp s.frame s.mappings s.entry s.dir) (at_start paging sp s)
        (make_first_tasks_lem sp s.frame s.mappings s.entry s.dir s.cpu s.flags_after s.memory)

  -- What code that keeps the state sound returns.
  after-Sound :
      {A : Type 0} {p : Prog (Machine paging) ⊥ A} {a : A} (m m' : Machine paging)
      → Keeps (SoundMachine paging Nobody) p
      → SoundMachine paging Nobody m
      → p m ≡ ok a m'
      → SoundMachine paging Nobody m'
  after-Sound m m' h i e =
      subst (Ends (λ _ t. SoundMachine paging Nobody t) (SoundMachine paging Nobody)) e
        (h.keeps m i).ends

  -- Whatever state the kernel gets to from its start by making the first tasks, loading the first
  -- process, rounds of the idle task and system calls, in any order and with any registers and
  -- answers from outside, as long as each of these returns: no task is locked, each is registered
  -- once and under its own id, and in its tables the capability handles and the file descriptors
  -- ascend below the next one.
  pub Reaches-Sound : (m : Machine paging) → Reaches paging sp s m → Sound Nobody m.kernel
  unfolding at_start
  Reaches-Sound _ (booted m e) =
      subst (Ends (λ _ t. SoundMachine paging Nobody t) (λ t. ⊥)) (sym booted_lem ∙ e) started-Sound
  Reaches-Sound _ (round m m' r e) =
      after-Sound m m' (in_kernel-Keeps paging (executor_round-Keeps sp)) (Reaches-Sound m r) e
  Reaches-Sound _ (first_process format m m' x r e) =
      after-Sound m m' (start_initproc-Keeps format paging sp s.dir) (Reaches-Sound m r) e
  Reaches-Sound _ (call env regs r' m m' r e) =
      after-Sound m m' (on_symcall_1-Keeps env paging sp Nobody regs) (Reaches-Sound m r) e
