-- ===== src/Context/Kernel/Tables.antt =====
-- The invariant of the kernel's state under code on the two tables of a context
-- (idker/src/context/task.rs) that holds its lock.
use idkernel.Base.{ℕ, Prog, Keeps, zoom-Keeps}
use idkernel.Capability.Storage.{Storage}
use idkernel.Capability.Storage.Laws.{IsValid}
use idkernel.Capability.Syscalls.{on_capabilities}
use idkernel.Context.Kernel.{with_write, on_context}
use idkernel.Context.Kernel.Kept.{with_write-Keeps, on_context-Keeps}
use idkernel.Context.Kernel.Sound.{Fine, Sound}
use idkernel.Context.Lock.{SpinRwLock}
use idkernel.File.Storage.{Storage as FileStorage}
use idkernel.File.Storage.Laws.{IsValid as IsValidFiles}
use idkernel.File.Syscalls.{on_files}

module _ {E A : Type 0} where
  pub on_capabilities-Keeps :
      (id : ℕ) {m : Prog Storage E A} → Keeps IsValid m → Keeps (Fine id) (on_capabilities m)
  on_capabilities-Keeps id h =
      zoom-Keeps (λ c. c.capabilities) (λ s c. record c { capabilities = s }) h (λ c f. f.handles)
        λ c s f v. record { identity = f.identity; handles = v; descriptors = f.descriptors }

  pub on_files-Keeps :
      (id : ℕ) {m : Prog FileStorage E A} → Keeps IsValidFiles m → Keeps (Fine id) (on_files m)
  on_files-Keeps id h =
      zoom-Keeps (λ c. c.files) (λ s c. record c { files = s }) h (λ c f. f.descriptors)
        λ c s f v. record { identity = f.identity; handles = f.handles; descriptors = v }

  module _ {held : ℕ → Type 0} (sp : SpinRwLock) (id : ℕ) where
    pub held_capabilities-Keeps :
        {m : Prog Storage E A}
        → Keeps IsValid m
        → Keeps (Sound held) (with_write sp id (on_context id (on_capabilities m)))
    held_capabilities-Keeps h =
        with_write-Keeps sp id (on_context-Keeps id (on_capabilities-Keeps id h))

    pub held_files-Keeps :
        {m : Prog FileStorage E A}
        → Keeps IsValidFiles m
        → Keeps (Sound held) (with_write sp id (on_context id (on_files m)))
    held_files-Keeps h = with_write-Keeps sp id (on_context-Keeps id (on_files-Keeps id h))
