-- ===== src/Context/Lock.antt =====
-- The `RwLock` of the crate spin, as idker/src/context/ relies on it: a parameter with the laws
-- that its documentation states. What holds a lock is tracked here; a lock that is not granted is
-- spun on, and on one processor Nobody else runs who could release it.
use idkernel.Base.{ℕ, zero, suc, ◌≡◌, refl, Bool, true, false}

-- `reading n` is held by n + 1 readers.
pub data Lock : Type 0 where
  unlocked writing : Lock
  reading : ℕ → Lock

pub record SpinRwLock : Type 0 where
  pub grants_read : Lock → Bool
  pub grants_write : Lock → Bool
  pub read_unlocked : grants_read unlocked ≡ true
  pub read_reading : (n : ℕ) → grants_read (reading n) ≡ true
  pub read_writing : grants_read writing ≡ false
  pub write_unlocked : grants_write unlocked ≡ true
  pub write_reading : (n : ℕ) → grants_write (reading n) ≡ false
  pub write_writing : grants_write writing ≡ false

-- One more reader, and one fewer.
abbrev pub add_reader : Lock → Lock
add_reader unlocked = reading 0
add_reader (reading n) = reading (suc n)
add_reader writing = writing

abbrev pub drop_reader : Lock → Lock
drop_reader (reading zero) = unlocked
drop_reader (reading (suc n)) = reading n
drop_reader unlocked = unlocked
drop_reader writing = writing

-- A lock with these laws.
abbrev pub plain_grants_read : Lock → Bool
plain_grants_read unlocked = true
plain_grants_read (reading n) = true
plain_grants_read writing = false

abbrev pub plain_grants_write : Lock → Bool
plain_grants_write unlocked = true
plain_grants_write (reading n) = false
plain_grants_write writing = false

abbrev pub plain_lock : SpinRwLock
plain_lock = record {
  grants_read = plain_grants_read;
  grants_write = plain_grants_write;
  read_unlocked = refl;
  read_reading = λ n. refl;
  read_writing = refl;
  write_unlocked = refl;
  write_reading = λ n. refl;
  write_writing = refl;
}
