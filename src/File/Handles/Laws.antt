-- ===== src/File/Handles/Laws.antt =====
-- What reading an open file of idker/src/file/ does on every handle.
use idkernel.Base.{
  ℕ, zero, suc, ◌-◌, ◌≤◌, ◌≡◌, if◌then◌else◌, ◌==◌, leb, Str, length, take, drop, ok, err, panic,
  length-take, take-min, length-drop, arith, min,
}
use idkernel.File.System.{not_seekable, seek_out_of_range}
use idkernel.File.Handles.{FileHandle, init_file, iterator, seek, read_init_file, read}

-- For an index in the file, a read returns the first bytes of the file, as many as asked for and
-- there are, and stays at the start if the index is 0; at any other index it panics.
pub read-init_file :
    {E : Type 0} (at index : ℕ) (file : Str)
    → index ≤ length file
    → read {E = E} at (init_file file index)
      ≡ (if index == 0 then ok (take at file) (init_file file 0) else panic)
unfolding read read_init_file
read-init_file at zero file h =
    ground (arith, take-min at file, length-take (min at (length file - 0)) file)
read-init_file at (suc index) file h =
    let n = min at (length file - suc index) in
    ground
      (arith, length-take (n - suc index) (drop (suc index) file), length-drop (suc index) file)

-- An open file stands within its content.
abbrev pub InRange : FileHandle → Type 0
InRange (init_file file index) = index ≤ length file
InRange (iterator rest) = Unit {0}

-- Seeking in a file moves to exactly the index asked for if that is not past its end, and otherwise
-- fails with `seek_out_of_range` and stays; seeking in names fails with `not_seekable` and stays.
pub seek_lem :
    (at : ℕ) (file rest : Str) (index : ℕ)
    → (seek at (init_file file index) ≡ (
        if leb at (length file)
        then ok tt (init_file file at)
        else err seek_out_of_range (init_file file index)))
      × (seek at (iterator rest) ≡ err not_seekable (iterator rest))
unfolding seek
seek_lem at file rest index = ground arith
