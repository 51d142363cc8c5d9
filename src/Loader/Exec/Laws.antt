-- ===== src/Loader/Exec/Laws.antt =====
-- How `exec` of idker/src/context/syscall.rs ends.
use idkernel.Base.{
  ℕ, zero, suc, ◌≤◌, ◌<◌, ◌≡◌, ◌⊎◌, inl, inr, refl, ◌∙◌, ap, Bool, [], ◌∷◌, ◌==◌, leb, length, Str,
  ok, err, panic, Prog, Ensures, bind-Ensures, map-Ensures, zoom-Ensures, map_err-Ensures,
  ok_or-Ensures, guard-Ensures, fail_if-Ensures, get-Ensures, arith, if◌then◌else◌, Bool-cases,
  ends-Ensures, subst,
}
use idkernel.Abi.{SyscallError, no_memory, wrong_parameters, wrong_process}
use idkernel.Capability.Syscalls.{is_child_of}
use idkernel.Context.Lock.{SpinRwLock, writing}
use idkernel.Context.Task.{TaskContext}
use idkernel.Context.Kernel.{Kernel, cell_of}
use idkernel.File.Handles.{FileHandle, init_file, iterator, read, read_init_file}
use idkernel.File.Load.{load, read_file_to_memory, resize}
use idkernel.File.Load.Laws.{first_round, read_file_to_memory_lem}
use idkernel.File.Storage.{Storage, on_handle}
use idkernel.File.Storage.Laws.{on_handle-ok}
use idkernel.Context.Kernel.Guarantees.{
  on_context-Ensures, current_task_id-Ensures, current_task-Ensures,
}
use idkernel.Machine.Guarantees.{hold_write-Ensures, with_lock}
use idkernel.Machine.{Machine, in_kernel}
use idkernel.Memory.{Paging}
use idkernel.Loader.Elf.{ElfFormat, invalid_size, new}
use idkernel.Loader.Exec.{file_limit, not_executable, read_program, exec_locked, exec_child, exec}

le_or_lt : (a b : ℕ) → (a ≤ b) ⊎ (b < a)
le_or_lt a b = elim (Bool-cases (leb a b)) [
  | inl e ↦ inl (ground (arith, e))
  | inr e ↦ inr (ground (arith, e))
]

first_round-ok :
    (handle h : FileHandle) (buffer : Str) → first_round handle ≡ ok buffer h → buffer ≡ []
first_round-ok (init_file file index) h buffer e = ground (arith, e)
first_round-ok (iterator []) h buffer e = ground (arith, e)
first_round-ok (iterator (x ∷ rest)) h buffer e = ground (arith, e)

read_beyond :
    (rounds limit : ℕ) (reserves : ℕ → Bool) (file : Str) (index : ℕ)
    → length file < index
    → 0 < limit
    → read_file_to_memory (suc rounds) reserves limit (init_file file index)
      ≡ (if reserves 0 then panic else err no_memory (init_file file index))
unfolding read_file_to_memory load resize read read_init_file
read_beyond rounds limit reserves file index far some_room = ground arith

-- Whatever the handle, a buffer that is returned is empty.
read_file_to_memory-ok :
    (rounds limit : ℕ) (reserves : ℕ → Bool) (handle h : FileHandle) (buffer : Str)
    → 0 < limit
    → read_file_to_memory rounds reserves limit handle ≡ ok buffer h
    → buffer ≡ []
read_file_to_memory-ok zero limit reserves handle h buffer room e =
    absurd (unfold read_file_to_memory load in ground (arith, e))
read_file_to_memory-ok (suc rounds) limit reserves (iterator rest) h buffer room e =
    let r = read_file_to_memory_lem rounds limit reserves (iterator rest) tt room in
    first_round-ok (iterator rest) h buffer (ground (arith, r, e))
read_file_to_memory-ok (suc rounds) limit reserves (init_file file index) h buffer room e =
    elim (le_or_lt index (length file)) [
      | inl within ↦
          let r =
            read_file_to_memory_lem rounds limit reserves (init_file file index) within room in
          first_round-ok (init_file file index) h buffer (ground (arith, r, e))
      | inr beyond ↦
          absurd (ground (arith, read_beyond rounds limit reserves file index beyond room, e))
    ]

-- What the calling task reads is empty, and reading it leaves the queue.
on_handle-empty :
    (rounds : ℕ) (reserves : ℕ → Bool) (fd : ℕ) (s : Storage)
    → Ensures
        (λ file t. file ≡ [])
        (λ t. Unit {0})
        s
        (on_handle fd (read_file_to_memory rounds reserves file_limit))
on_handle-empty rounds reserves fd s =
    ends-Ensures s (on_handle fd (read_file_to_memory rounds reserves file_limit))
      (λ file t e.
        let (h, h', there, reads, after) =
          on_handle-ok fd (read_file_to_memory rounds reserves file_limit) s t file e in
        read_file_to_memory-ok rounds file_limit reserves h h' file (omega arith) reads)
      (λ x t e. tt)

read_program-Ensures :
    (rounds : ℕ) (reserves : ℕ → Bool) (me fd : ℕ) (k : Kernel)
    → Ensures
        (λ file k'. (file ≡ []) × (k'.registry.executable_tasks ≡ k.registry.executable_tasks))
        (λ k'. k'.registry.executable_tasks ≡ k.registry.executable_tasks)
        k
        (read_program rounds reserves me fd)
unfolding read_program
read_program-Ensures rounds reserves me fd k = on_context-Ensures me λ c found. zoom-Ensures _ _ (
    map-Ensures (on_handle-empty rounds reserves fd c.context.files) (λ file t e. (e, refl))
      (λ t u. refl))

module _ (format : ElfFormat) where
  -- An empty file is no ELF file.
  new_empty : {S : Type 0} (s : S) → new format [] s ≡ err invalid_size s
  unfolding new
  new_empty s = ground arith

  module _ (paging : Paging) where
    -- Neither the memory of any task nor the queue changed.
    abbrev pub Untouched : Machine paging → Machine paging → Type 0
    Untouched m m' =
        (m'.tables ≡ m.tables)
        × (m'.frames ≡ m.frames)
        × (m'.kernel.registry.executable_tasks ≡ m.kernel.registry.executable_tasks)

    abbrev pub Refuses : Machine paging → Prog (Machine paging) SyscallError (Unit {0}) → Type 0
    Refuses m prog = Ensures (λ _ m'. ⊥) (Untouched m) m prog

    module _ (m t : Machine paging) where
      quiet :
          {P : ℕ → Kernel → Type 0} {prog : Prog Kernel SyscallError ℕ}
          → Untouched m t
          → Ensures (λ id k. (k ≡ t.kernel) × P id k) (λ k. k ≡ t.kernel) t.kernel prog
          → Ensures (λ _ t'. Untouched m t') (Untouched m) t (in_kernel paging prog)
      quiet (tables, frames, queue) h = zoom-Ensures _ _ (
          map-Ensures h
            (λ id k e.
              (tables, frames, ap (λ (x : Kernel). x.registry.executable_tasks) e.0 ∙ queue))
            (λ k e. (tables, frames, ap (λ (x : Kernel). x.registry.executable_tasks) e ∙ queue)))

    module _ (sp : SpinRwLock) (m : Machine paging) where
      exec_locked-Refuses :
          (rounds : ℕ) (reserves : ℕ → Bool) (me proc_id fd : ℕ) (proc : TaskContext)
          (t : Machine paging)
          → Untouched m t
          → Ensures
              (λ _ m'. ⊥)
              (Untouched m)
              t
              (exec_locked format paging rounds reserves me proc_id proc fd)
      unfolding exec_locked
      exec_locked-Refuses rounds reserves me proc_id fd proc t (tables, frames, queue) =
          bind-Ensures {P' = λ file t'. (file ≡ []) × Untouched m t'}
            (zoom-Ensures _ _ (
              map-Ensures (read_program-Ensures rounds reserves me fd t.kernel)
                (λ file k' e. (e.0, (tables, frames, e.1 ∙ queue)))
                (λ k' e. (tables, frames, e ∙ queue))))
            λ file t' e.
              let fails : new format file t' ≡ err invalid_size t' = rw e.0 (new_empty t') in
              bind-Ensures {P' = λ _ u. ⊥}
                (map_err-Ensures not_executable (
                  ends-Ensures t' (new format file) (λ a u g. absurd (ground (arith, fails, g)))
                    (λ x u g.
                      let same : t' ≡ u = ground (arith, fails, g) in
                      subst (Untouched m) same e.1)))
                λ elf u none. absurd none

      exec_child-Refuses :
          (rounds : ℕ) (reserves : ℕ → Bool) (proc_id fd : ℕ) (t : Machine paging)
          → Untouched m t
          → Ensures
              (λ _ m'. ⊥)
              (Untouched m)
              t
              (exec_child format paging sp rounds reserves proc_id fd)
      unfolding exec_child
      exec_child-Refuses rounds reserves proc_id fd t (tables, frames, queue) =
          bind-Ensures {P' = λ proc t'. Untouched m t'}
            (zoom-Ensures _ _
              (on_context-Ensures proc_id λ c found. get-Ensures (tables, frames, queue)))
            λ proc t1 u1.
              bind-Ensures {P' = λ parent t'. Untouched m t'}
                (quiet m t1 u1 (current_task_id-Ensures t1.kernel))
                λ parent t2 u2.
                  bind-Ensures {P' = λ _ t'. Untouched m t'}
                    (guard-Ensures (is_child_of parent proc) wrong_process (λ _. u2) u2)
                    λ _ t3 u3.
                      bind-Ensures {P' = λ _ t'. Untouched m t'}
                        (guard-Ensures (proc.user_entry_point == 0) wrong_process (λ _. u3) u3)
                        λ _ t4 u4.
                          bind-Ensures {P' = λ me t'. Untouched m t'}
                            (quiet m t4 u4 (current_task-Ensures t4.kernel))
                            λ me t5 u5. hold_write-Ensures paging sp me λ c found.
                              map-Ensures
                                (exec_locked-Refuses rounds reserves me proc_id fd proc
                                  (with_lock paging me writing t5) u5)
                                (λ _ _ none. none) (λ _ u. u)

      -- For every state and every argument, whatever the parameters answer, `exec` never succeeds,
      -- and where it ends with an error, the page tables, the content of the frames and the queue
      -- of tasks to execute are as they were. (It may also panic or wait for ever.)
      pub exec-Refuses :
          (rounds : ℕ) (reserves : ℕ → Bool) (proc_id fd : ℕ)
          → Refuses m (exec format paging sp rounds reserves proc_id fd)
      unfolding exec
      exec-Refuses rounds reserves proc_id fd =
          let start : Untouched m m = (refl, refl, refl) in
          bind-Ensures {P' = λ _ t. Untouched m t}
            (fail_if-Ensures (proc_id == 0) wrong_parameters (λ _. start) start)
            λ _ t1 u1. bind-Ensures {P' = λ _ t. Untouched m t} (get-Ensures u1) λ s t2 u2.
              bind-Ensures {P' = λ _ t. Untouched m t}
                (ok_or-Ensures (cell_of proc_id s.kernel) wrong_process (λ _ _. u2) u2)
                λ _ t3 u3. hold_write-Ensures paging sp proc_id λ c found.
                  map-Ensures
                    (exec_child-Refuses rounds reserves proc_id fd
                      (with_lock paging proc_id writing t3) u3)
                    (λ _ _ none. none) (λ _ u. u)
