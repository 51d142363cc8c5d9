-- ===== src/System/Exit.antt =====
-- `exit` in the states that the kernel gets to from `run_executor` of idker/src/main.rs on.
use idkernel.Base.{ℕ, ◌≡◌, ◌≢◌, inl, inr, some, hang}
use idkernel.Context.Lock.{SpinRwLock, unlocked}
use idkernel.Context.Registry.{Cell}
use idkernel.Context.Kernel.{Kernel, cell_of}
use idkernel.Context.Kernel.Sound.{Sound, Nobody}
use idkernel.Context.Kernel.Switching.RoundRobin.{first_of_queue}
use idkernel.Context.Process.{exit}
use idkernel.Context.Process.Laws.{exit_hangs}
use idkernel.Machine.{Machine}
use idkernel.Memory.{Paging}
use idkernel.System.{Start, Reaches}
use idkernel.System.Soundness.{Reaches-Sound}

-- A registered task of a sound state is unlocked.
unlocked_there :
    (k : Kernel) (q : ℕ) (c : Cell) → Sound Nobody k → cell_of q k ≡ some c → c.lock ≡ unlocked
unlocked_there k q c s e = elim (s.free q c e) [ inl h ↦ absurd h | inr free ↦ free ]

module _ (paging : Paging) (sp : SpinRwLock) (s : Start paging) where
  -- In every state that the kernel gets to from its start, if the running task and the one that
  -- would run next (the first of the queue, task 1 if it is empty) are registered and distinct and
  -- the running one has a nonzero id, `exit` never ends; in such a state both are unlocked.
  pub Reaches-exit :
      (m : Machine paging) (c t : Cell)
      → Reaches paging sp s m
      → cell_of m.kernel.task_id m.kernel ≡ some c
      → m.kernel.task_id ≢ 0
      → cell_of (first_of_queue m.kernel.registry.executable_tasks) m.kernel ≡ some t
      → first_of_queue m.kernel.registry.executable_tasks ≢ m.kernel.task_id
      → exit sp m.kernel ≡ hang
  Reaches-exit m c t r here named there apart =
      let sound : Sound Nobody m.kernel = Reaches-Sound paging sp s m r in
      exit_hangs sp m.kernel c t (record {
        running = here;
        waiting = there;
        apart = apart;
        named = named;
        identity = (sound.fine m.kernel.task_id c here).identity;
        from_free = unlocked_there m.kernel m.kernel.task_id c sound here;
        next_free =
            unlocked_there m.kernel (first_of_queue m.kernel.registry.executable_tasks) t sound
              there;
      })
