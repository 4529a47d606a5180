-- ===== src/ShmMem/Setup.antt =====
-- One process's set-up: the constructor and the destructor of `ipsm_mem::impl`, with the header of the
-- shared memory, over what the system calls answer. The constructor's loop takes one `Turn` of answers
-- for each time round; a read of the header through an address that is not mapped has no result.
use procshared_mem.Base.{
  ℕ, Bool, true, false, not, ◌||◌, Option, none, some, List, [], ◌∷◌, ◌==◌, if◌then◌else◌,
}
use procshared_mem.Base.Word.{add_word, sub_word}
use procshared_mem.ShmMem.{
  Answer, Thrown, invalid_argument, ipsm_mem_error, Os, ShmGuard, empty_guard, destroy, Result,
  returns, throws, open_shm, create, move_assign,
}
use procshared_mem.ShmMem.Locks.{LockFileGuard, construct, try_lock, release_lock}

-- `ipsm_mem::status`.
abbrev pub initializing : ℕ
initializing = 1229782938247303441

abbrev pub ready : ℕ
ready = 2459565876494606882

-- `ipsm_mem_header`, and its size.
pub record Header : Type 0 where
  pub status_ : ℕ
  pub sharing_value_ : ℕ

abbrev pub construct_header : Header
construct_header = record { status_ = initializing; sharing_value_ = 0 }

unfoldable pub set_ready_with_sharing_value : Header → ℕ → Header
set_ready_with_sharing_value h value = record { status_ = ready; sharing_value_ = value }

abbrev pub header_size : ℕ
header_size = 16

abbrev pub etimedout : ℕ
etimedout = 110

-- The arguments of the constructor, and the size of a page.
pub record Request : Type 0 where
  pub page_size : ℕ
  pub name_empty : Bool
  pub slash_first : Bool
  pub fname_empty : Bool
  pub length : ℕ

-- The answers to one turn: to the exclusive lock, to `create`, of the functor (`none` where it throws),
-- to each try of the shared lock, with whether the time is over after the sleep, to `open`, of the
-- header's status, and to the release of the shared lock.
pub record Turn : Type 0 where
  pub file : Answer
  pub exclusive : Answer
  pub create_shm : Answer
  pub create_size : Answer
  pub create_map : Answer
  pub functor : Option ℕ
  pub shared : List (Answer × Bool)
  pub open_fd : Answer
  pub open_map : Answer
  pub status : ℕ
  pub unlock : Answer

-- `shared_lock_guard_` and `shm_guard_`, with what the process holds of the system.
pub record Impl : Type 0 where
  pub os : Os
  pub shared_lock_guard_ : LockFileGuard
  pub shm_guard_ : ShmGuard

-- How a part of the constructor ends: it goes on, it starts the next turn, it throws, the functor
-- throws, or it reads memory that is not mapped.
pub data Exit : Type 0 where
  goes_on : Exit
  retries : Exit
  throws_error : Thrown → Exit
  functor_throws : Exit
  undefined : Exit

unfoldable pub necessary_size : Request → ℕ
necessary_size q = add_word q.length header_size

-- The block with the exclusive lock: `shm_create_guard` after it, and the header that it leaves in a new
-- object.
unfoldable pub initialize : Request → Turn → Os → Os × ShmGuard × Option Header × Exit
initialize q t os = elim (construct q.fname_empty t.file).1 [
  | some e ↦ (os, empty_guard, none, throws_error e)
  | none ↦ elim (try_lock (construct q.fname_empty t.file).0 t.exclusive).1 [
    | throws e ↦ (os, empty_guard, none, throws_error e)
    | returns false ↦ (os, empty_guard, none, goes_on)
    | returns true ↦
        let c =
          create os empty_guard q.name_empty q.slash_first q.page_size (necessary_size q)
            t.create_shm t.create_size t.create_map in
        elim c.2 [
          | throws e ↦ (c.0, c.1, none, throws_error e)
          | returns b ↦ elim t.functor [
            | none ↦ (c.0, c.1, some construct_header, functor_throws)
            | some v ↦ (c.0, c.1, some (set_ready_with_sharing_value construct_header v), goes_on)
          ]
        ]
  ]
]

-- The loop that waits for the shared lock. `none` while it waits.
unfoldable pub wait_shared : List (Answer × Bool) → LockFileGuard → Option (LockFileGuard × Exit)
wait_shared [] g = none
wait_shared ((flock, late) ∷ tries) g =
    let r = try_lock g flock in
    let again = wait_shared tries r.0 in
    elim r.1 [
      | throws e ↦ some (r.0, throws_error e)
      | returns true ↦ some (r.0, goes_on)
      | returns false ↦ if late then some (r.0, throws_error (ipsm_mem_error etimedout)) else again
    ]

-- `release_lock` before the next turn, and what the branch does after it.
unfoldable pub release_then : Impl → Answer → Exit → Impl × Exit
release_then i unlock next =
    let r = release_lock i.shared_lock_guard_ unlock in
    let i' = record i { shared_lock_guard_ = r.0 } in
    elim r.1 [ throws e ↦ (i', throws_error e) | returns b ↦ (i', next) ]

-- The part with the shared lock. Where the status is not ready, the guard is emptied, the lock is
-- released, and the status is read once more, through the address that was mapped, for the log.
unfoldable pub check_ready : Turn → Impl → Impl × Exit
check_ready t i =
    if t.status == ready
    then (i, goes_on)
    else (let m = move_assign i.os i.shm_guard_ empty_guard in
        let read : Exit = if m.0.is_mapped i.shm_guard_.p_addr then retries else undefined in
        release_then (record i { os = m.0; shm_guard_ = m.1 }) t.unlock read)

unfoldable pub after_open : Turn → LockFileGuard → Os × ShmGuard × Result → Impl × Exit
after_open t lock (os, g, throws e) =
    (record { os = os; shared_lock_guard_ = lock; shm_guard_ = g }, throws_error e)
after_open t lock (os, g, returns false) =
    release_then (record { os = os; shared_lock_guard_ = lock; shm_guard_ = g }) t.unlock retries
after_open t lock (os, g, returns true) =
    check_ready t (record { os = os; shared_lock_guard_ = lock; shm_guard_ = g })

unfoldable pub open_shared : Request → Turn → Impl → Impl × Exit
open_shared q t i =
    after_open t i.shared_lock_guard_
      (open_shm i.os i.shm_guard_ q.name_empty q.page_size (necessary_size q) t.open_fd t.open_map)

-- `shm_create_guard` is destroyed at the end of a turn, however it ends.
abbrev pub end_turn : ShmGuard → Impl × Exit → Impl × Exit
end_turn g r = (record r.0 { os = destroy r.0.os g }, r.1)

-- One time round the loop. `none` while it waits for the shared lock.
unfoldable pub setup_turn : Request → Turn → Impl → Option (Impl × Exit)
setup_turn q t i =
    let x = initialize q t i.os in
    let i' = record i { os = x.0 } in
    elim x.3 [
      | goes_on ↦ elim (wait_shared t.shared i.shared_lock_guard_) [
        | none ↦ none
        | some (g, goes_on) ↦
            some (end_turn x.1 (open_shared q t (record i' { shared_lock_guard_ = g })))
        | some (g, e) ↦ some (end_turn x.1 (record i' { shared_lock_guard_ = g }, e))
      ]
      | e ↦ some (end_turn x.1 (i', e))
    ]

-- The loop: `none` where it asks for one more turn.
unfoldable pub setup_loop : Request → List Turn → Impl → Option (Impl × Exit)
setup_loop q [] i = none
setup_loop q (t ∷ ts) i = elim (setup_turn q t i) [
  | none ↦ none
  | some (i', retries) ↦ setup_loop q ts i'
  | some (i', e) ↦ some (i', e)
]

-- The destructor of `impl`: whether it removes the name, and the memory's guard. An exception of a lock
-- is caught, and ends it.
unfoldable pub destruct :
    Impl → (unlock : Answer) → (fname_empty : Bool) → (file exclusive : Answer) → Os × Bool
destruct i unlock fname_empty file exclusive =
    let c = construct fname_empty file in
    let unlinked : Bool = elim (release_lock i.shared_lock_guard_ unlock).1 [
      | throws e ↦ false
      | returns b ↦ elim c.1 [
        | some e ↦ false
        | none ↦ elim (try_lock c.0 exclusive).1 [ throws e ↦ false | returns b ↦ b ]
      ]
    ] in
    (destroy i.os i.shm_guard_, unlinked)

-- `get`, `available_size`, `get_status` and `get_hint_value` of an `ipsm_mem`: `none` is no `impl`; the
-- header is what stands at the address that is mapped.
abbrev pub address_of : Option Impl → ℕ
address_of none = 0
address_of (some i) = i.shm_guard_.p_addr

unfoldable pub get : Option Impl → ℕ
get p = if address_of p == 0 then 0 else add_word (address_of p) header_size

unfoldable pub available_size : Option Impl → ℕ
available_size none = 0
available_size (some i) = sub_word i.shm_guard_.length header_size

unfoldable pub get_status : Option Impl → Header → ℕ
get_status p h = if address_of p == 0 then initializing else h.status_

unfoldable pub get_hint_value : Option Impl → Header → ℕ
get_hint_value p h = if address_of p == 0 then 0 else h.sharing_value_

-- `ipsm_mem::setup`: the tests of the arguments, and which exceptions of the constructor it turns into
-- `false`. `shm_name_null` and the like are the tests of the pointers.
unfoldable pub setup :
    Option Impl
    → (name_null fname_null : Bool) → Request
    → (constructed : Impl × Exit) → Option Impl × Exit × Bool
setup (some i) name_null fname_null q r = (some i, goes_on, true)
setup none name_null fname_null q r =
    if name_null || q.name_empty
    then (none, throws_error invalid_argument, false)
    else if not q.slash_first
    then (none, throws_error invalid_argument, false)
    else if fname_null || q.fname_empty
    then (none, throws_error invalid_argument, false)
    else if q.length == 0
    then (none, throws_error invalid_argument, false)
    else elim r.1 [
      | goes_on ↦ (some r.0, goes_on, true)
      | throws_error (ipsm_mem_error e) ↦
          if e == etimedout
          then (none, goes_on, false)
          else (none, throws_error (ipsm_mem_error e), false)
      | e ↦ (none, e, false)
    ]

-- The constructor of `ipsm_mem` over what `setup` comes to, its move construction (the new object and the
-- source), `swap`, and its move assignment, with the `impl` that is destroyed.
unfoldable pub construct_mem : Option Impl × Exit × Bool → Option Impl × Exit
construct_mem (p, goes_on, true) = (p, goes_on)
construct_mem (p, goes_on, false) = (none, throws_error (ipsm_mem_error etimedout))
construct_mem (p, e, b) = (none, e)

unfoldable pub move_mem : Option Impl → Option Impl × Option Impl
move_mem src = (src, none)

unfoldable pub swap_mem : Option Impl → Option Impl → Option Impl × Option Impl
swap_mem this src = (src, this)

unfoldable pub move_assign_mem : Option Impl → Option Impl → Option Impl × Option Impl × Option Impl
move_assign_mem this src = let m = move_mem src in let s = swap_mem m.0 this in (s.1, m.1, s.0)
