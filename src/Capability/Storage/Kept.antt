-- ===== src/Capability/Storage/Kept.antt =====
-- The order of the handles under the operations on the capability table of
-- idker/src/capability/syscall.rs.
use idkernel.Base.{
  ℕ, ◌+◌, ◌^◌, ◌≡◌, Bool, true, false, Option, none, some, ltb, if◌then◌else◌, Bool-cases, inl, inr,
  ok, err, panic, Ends, Keeps, Ends-Keeps, equal-Ends, arith, Within-grow, Within-set,
}
use native.Mathlib.Numerals.{add-one}
use idkernel.Abi.{SyscallError, no_memory, wrong_capability}
use idkernel.Capability.Data.{Capability}
use idkernel.Capability.Storage.{Storage, insert, lookup, write_back, delete}
use idkernel.Capability.Storage.Laws.{
  IsValid, inserted, deleted, insert_lem, inserted-IsValid, deleted-IsValid, delete_lem,
}

-- A handle that is given out and not used.
spent-IsValid : (s : Storage) → IsValid s → IsValid (record s { next_handle = s.next_handle + 1 })
spent-IsValid s v = record {
  handed_out = rw add-one (Within-grow 0 s.next_handle s.handles v.handed_out);
}

insert_full :
    (reserved : Bool) (cap : Capability) (s : Storage)
    → ltb (s.next_handle + 1) (2 ^ 64) ≡ false
    → insert reserved cap s ≡ panic
unfolding insert
insert_full reserved cap s e = ground (arith, e)

insert_outcome :
    (reserved : Bool) (cap : Capability) (s : Storage)
    → IsValid s
    → Ends {E = SyscallError}
        (λ _ t. IsValid t)
        IsValid
        (if reserved
          then ok s.next_handle (inserted cap s)
          else err no_memory (record s { next_handle = s.next_handle + 1 }))
insert_outcome true cap s v = inserted-IsValid cap s v
insert_outcome false cap s v = spent-IsValid s v

pub insert-Keeps : (reserved : Bool) (cap : Capability) → Keeps IsValid (insert reserved cap)
insert-Keeps reserved cap = Ends-Keeps (insert reserved cap) λ s v.
    elim (Bool-cases (ltb (s.next_handle + 1) (2 ^ 64))) [
      | inl room ↦
          equal-Ends IsValid (insert reserved cap) _
            (insert_lem reserved cap s (ground (arith, room))) (insert_outcome reserved cap s v)
      | inr full ↦
          equal-Ends IsValid (insert reserved cap) panic (insert_full reserved cap s full) tt
    ]

delete_outcome :
    (o : Option Capability) (h : ℕ) (s : Storage)
    → IsValid s
    → Ends {E = SyscallError}
        (λ _ t. IsValid t)
        IsValid
        (elim o [ none ↦ err wrong_capability s | some cap ↦ ok cap (deleted h s) ])
delete_outcome none h s v = v
delete_outcome (some cap) h s v = deleted-IsValid h s v

pub delete-Keeps : (h : ℕ) → Keeps IsValid (delete h)
delete-Keeps h =
    Ends-Keeps (delete h)
      λ s v. equal-Ends IsValid (delete h) _ (delete_lem h s) (delete_outcome (lookup h s) h s v)

pub write_back-IsValid :
    (h : ℕ) (cap : Capability) (s : Storage) → IsValid s → IsValid (write_back h cap s)
unfolding write_back
write_back-IsValid h cap s v = record {
  handed_out = Within-set h 0 s.next_handle cap s.handles v.handed_out;
}
