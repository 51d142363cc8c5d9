-- ===== src/Loader/Elf.antt =====
-- idker/src/context/elf.rs: the checks on an ELF file, and the mapping of its programs. The layout
-- of headers of the crate goblin is a parameter; a file is its bytes.
pub mod Laws
use idkernel.Base.{
  ℕ, zero, suc, ◌+◌, ◌-◌, ◌*◌, ◌^◌, min, Bool, false, not, ◌&&◌, Option, none, some, List, [], ◌∷◌,
  ◌++◌, map, ltb, leb, ◌==◌, if◌then◌else◌, length, take, drop, replicate, slice, Str, str_eq,
  Outcome, ok, panic, Prog, ◌>>=◌, ◌>>◌, pure, modify, unwrap, guard, assert, fail_if, must,
}
use idkernel.Userspace.{check_addr_userspace, checked_sum}
use idkernel.Memory.{Paging, PageTableFlags, Mapped, mapped}

pub data ElfError : Type 0 where
  invalid_size invalid_magic invalid_program_headers : ElfError

-- The fields in use here of `Header` and of `ProgramHeader`, whose flags are `PF_R`, `PF_W` and
-- `PF_X`.
pub record Header : Type 0 where
  pub e_ident : Str
  pub e_phoff : ℕ
  pub e_phnum : ℕ
  pub e_entry : ℕ

pub record ProgramHeader : Type 0 where
  pub p_type : ℕ
  pub readable : Bool
  pub writable : Bool
  pub executable : Bool
  pub p_offset : ℕ
  pub p_vaddr : ℕ
  pub p_filesz : ℕ
  pub p_memsz : ℕ

-- What the code takes from goblin; `nth_program_header` reads an entry of a table of these.
pub record ElfFormat : Type 0 where
  pub sizeof_ehdr : ℕ
  pub sizeof_phdr : ℕ
  pub elfmag : Str
  pub pt_load : ℕ
  pub from_bytes : Str → Header
  pub nth_program_header : Str → ℕ → ProgramHeader

abbrev pub page_bytes : ℕ
page_bytes = 4096

-- What one page holds: the bytes of a program from `off` on, as many as fit, and zeros.
unfoldable pub page_image : ℕ → Str → Str
page_image off bytes =
    let data_end = min (page_bytes - off) (length bytes) in
    replicate off 0 ++ (take data_end bytes ++ replicate (page_bytes - off - data_end) 0)

-- The indices of a table.
abbrev pub upto : ℕ → List ℕ
upto zero = []
upto (suc n) = upto n ++ n ∷ []

module _ (paging : Paging) where
  -- The page tables, and the content of the frames.
  abbrev pub Space : Type 0
  Space = paging.Tables × (ℕ → Str)

  -- `allocate_frame().expect(…)`.
  unfoldable pub expect_frame : {E : Type 0} → Prog Space E ℕ
  expect_frame (tables, frames) =
      let (answer, rest) = paging.allocate_frame tables in
      elim answer [ none ↦ panic | some frame ↦ ok frame (rest, frames) ]

  abbrev pub expect_mapped :
      {E : Type 0} → Mapped × paging.Tables → (ℕ → Str) → Outcome Space E (Unit {0})
  expect_mapped (mapped, tables) frames = ok tt (tables, frames)
  expect_mapped (_, tables) frames = panic

  -- `map_to(…).expect(…)`.
  unfoldable pub expect_map : {E : Type 0} → ℕ → ℕ → ℕ → PageTableFlags → Prog Space E (Unit {0})
  expect_map table page frame flags (tables, frames) =
      expect_mapped (paging.map_to table page frame flags tables) frames

  unfoldable pub write_frame : {E : Type 0} → ℕ → Str → Prog Space E (Unit {0})
  write_frame frame content (tables, frames) =
      ok tt (tables, λ f. if f == frame then content else frames f)

  -- The loop over the pages of a program. `off` is how far behind the start of the first page the
  -- program starts; `file_index` is its negation, on every page.
  unfoldable pub mount_pages :
      {E : Type 0} → ℕ → PageTableFlags → ℕ → Str → List ℕ → Prog Space E (Unit {0})
  mount_pages table flags off bytes [] = pure tt
  mount_pages table flags off bytes (page ∷ pages) =
      let rest = mount_pages table flags off bytes pages in
      do
        frame ← expect_frame
        expect_map table page frame flags
        write_frame frame (page_image off bytes)
        rest

  unfoldable pub mount_program : {E : Type 0} → ℕ → ProgramHeader → Str → Prog Space E (Unit {0})
  mount_program table h bytes = do
    from ← unwrap (paging.virt_addr h.p_vaddr)
    checked_sum from h.p_memsz
    to ← unwrap (paging.virt_addr (from + h.p_memsz))
    must (check_addr_userspace from)
    must (check_addr_userspace to)
    assert (leb 1 to)
    last ← unwrap (paging.virt_addr (to - 1))
    let from_page = paging.containing from
    let pages = paging.range_inclusive from_page (paging.containing last)
    assert h.readable
    let flags : PageTableFlags = record {
      writable = h.writable;
      no_execute = not h.executable;
      bit_10 = false;
    }
    mount_pages table flags (from - from_page) bytes pages

module _ (format : ElfFormat) where
  unfoldable pub header : Str → Header
  header elf = format.from_bytes (take format.sizeof_ehdr elf)

  -- `Elf::new`.
  unfoldable pub new : {S : Type 0} → Str → Prog S ElfError Str
  new bytes = do
    fail_if (leb (length bytes) format.sizeof_ehdr) invalid_size
    let h = header bytes
    guard (str_eq (take (length format.elfmag) h.e_ident) format.elfmag) invalid_magic
    let behind = h.e_phoff + h.e_phnum * format.sizeof_phdr
    guard (ltb behind (2 ^ 64) && ltb behind (length bytes)) invalid_program_headers
    pure bytes

  unfoldable pub program_headers : Str → List ProgramHeader
  program_headers elf =
      let h = header elf in map (format.nth_program_header (drop h.e_phoff elf)) (upto h.e_phnum)

  module _ (paging : Paging) where
    -- The programs in order; the slice of each is taken before its header is looked at.
    unfoldable pub mount_all :
        {E : Type 0} → ℕ → Str → List ProgramHeader → Prog (Space paging) E (Unit {0})
    mount_all table elf [] = pure tt
    mount_all table elf (h ∷ headers) =
        let rest = mount_all table elf headers in
        do
          bytes ← unwrap (slice h.p_offset (h.p_offset + h.p_filesz) elf)
          if (h.p_type == format.pt_load) && ltb 0 h.p_memsz
              then mount_program paging table h bytes
              else pure tt
          rest

    unfoldable pub mount_into : {E : Type 0} → ℕ → Str → Prog (Space paging) E (Unit {0})
    mount_into table elf = mount_all table elf (program_headers elf)
