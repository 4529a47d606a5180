-- ===== src/ShmMem.antt =====
-- The two guards of libipsm_mem/src/ipsm_mem.cpp: the lock file and the mapping of a shared memory.
-- The system calls are parameters: what each answers (a file descriptor, an address, or an error
-- number). The descriptors that are open and the mappings that are there are kept beside the guards,
-- and so is the size that a shared memory object is given.
pub mod Owned
pub mod Locks
pub mod Processes
pub mod Sharing
pub mod Users
pub mod Setup
pub mod Retry
mod Tests
mod SetupTests
use procshared_mem.Base.{
  ℕ, ◌+◌, ◌-◌, ◌*◌, ◌/◌, ◌^◌, ◌≤◌, ◌<◌, ◌≡◌, Bool, true, false, not, ◌||◌, Option, none, some, ltb,
  ◌==◌, if◌then◌else◌, arith,
}
use procshared_mem.Base.Word.{add_word, sub_word, word_mod}
use procshared_mem.Base.Tally.{update}

-- What a system call answers: a value, or the error number.
pub data Answer : Type 0 where
  ok : ℕ → Answer
  fails : (number : ℕ) → Answer

-- The exceptions: `std::invalid_argument`, and `ipsm_mem_error` with an error number.
pub data Thrown : Type 0 where
  invalid_argument : Thrown
  ipsm_mem_error : (number : ℕ) → Thrown

-- What the process holds of the system: the open descriptors and the mapped addresses.
pub record Os : Type 0 where
  pub is_open : ℕ → Bool
  pub is_mapped : ℕ → Bool

abbrev pub opened : Os → ℕ → Os
opened os fd = record os { is_open = update os.is_open fd true }

abbrev pub closed : Os → ℕ → Os
closed os fd = record os { is_open = update os.is_open fd false }

abbrev pub mapped : Os → ℕ → Os
mapped os a = record os { is_mapped = update os.is_mapped a true }

abbrev pub unmapped : Os → ℕ → Os
unmapped os a = record os { is_mapped = update os.is_mapped a false }

-- `roundup_to_page_size`, with the size of a page as `sysconf` answers it.
unfoldable pub roundup_to_page_size : (page_size length : ℕ) → ℕ
roundup_to_page_size page_size length =
    sub_word (add_word length page_size) 1 / page_size * page_size

-- `shm_guard`: `none` is a descriptor below 0, 0 the null address.
pub record ShmGuard : Type 0 where
  pub fd : Option ℕ
  pub p_addr : ℕ
  pub length : ℕ

abbrev pub empty_guard : ShmGuard
empty_guard = record { fd = none; p_addr = 0; length = 0 }

abbrev pub close_fd : Os → Option ℕ → Os
close_fd os none = os
close_fd os (some fd) = closed os fd

unfoldable pub destroy : Os → ShmGuard → Os
destroy os g = close_fd (if g.p_addr == 0 then os else unmapped os g.p_addr) g.fd

-- The result of `open` and `create`: the guard, and the value or the exception.
pub data Result : Type 0 where
  returns : (value : Bool) → Result
  throws : Thrown → Result

abbrev pub max_off : ℕ
max_off = 2 ^ 63 - 1

-- The steps of `open` after `shm_open` gave the descriptor `fd`.
unfoldable pub map_opened :
    Os → ShmGuard → (fd aligned : ℕ) → (mmap : Answer) → Os × ShmGuard × Result
map_opened os g fd aligned (fails e) = (closed (opened os fd) fd, g, returns false)
map_opened os g fd aligned (ok a) =
    (mapped (opened os fd) a, record { fd = some fd; p_addr = a; length = aligned }, returns true)

unfoldable pub open_shm :
    Os
    → ShmGuard
    → (name_empty : Bool) → (page_size length : ℕ) → (shm_open mmap : Answer)
    → Os × ShmGuard × Result
open_shm os g name_empty page_size length shm_open mmap =
    if name_empty || (length == 0) || ltb max_off length
    then (os, g, throws invalid_argument)
    else elim shm_open [
      | fails e ↦ (os, g, returns false)
      | ok fd ↦ map_opened os g fd (roundup_to_page_size page_size length) mmap
    ]

-- The steps of `create` after `shm_open` gave the descriptor `fd`.
unfoldable pub map_created :
    Os → ShmGuard → (fd aligned : ℕ) → (ftruncate mmap : Answer) → Os × ShmGuard × Result
map_created os g fd aligned (fails e) mmap =
    (closed (opened os fd) fd, g, throws (ipsm_mem_error e))
map_created os g fd aligned (ok r) (fails e) =
    (closed (opened os fd) fd, g, throws (ipsm_mem_error e))
map_created os g fd aligned (ok r) (ok a) =
    (mapped (opened os fd) a, record { fd = some fd; p_addr = a; length = aligned }, returns true)

unfoldable pub create :
    Os
    → ShmGuard
    → (name_empty slash_first : Bool) → (page_size length : ℕ) → (shm_open ftruncate mmap : Answer)
    → Os × ShmGuard × Result
create os g name_empty slash_first page_size length shm_open ftruncate mmap =
    if name_empty || not slash_first || (length == 0) || ltb max_off length
    then (os, g, throws invalid_argument)
    else elim shm_open [
      | fails e ↦ (os, g, throws (ipsm_mem_error e))
      | ok fd ↦ map_created os g fd (roundup_to_page_size page_size length) ftruncate mmap
    ]

-- Move construction (the new guard, and the source), and move assignment: the old content of the
-- target is destroyed with the temporary.
unfoldable pub move_construct : ShmGuard → ShmGuard × ShmGuard
move_construct src = (src, empty_guard)

unfoldable pub move_assign : Os → (this src : ShmGuard) → Os × ShmGuard × ShmGuard
move_assign os this src = (destroy os this, src, empty_guard)
