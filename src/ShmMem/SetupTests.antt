-- ===== src/ShmMem/SetupTests.antt =====
-- Process 0 creates the object 5 and shares the value 9, process 1 comes to use it as well, and process 2
-- looks on.
use procshared_mem.Base.{
  ℕ, ◌≡◌, refl, true, false, inl, inr, none, some, [], ◌∷◌, ◌==◌, Bool-cases, arith,
}
use procshared_mem.ShmMem.{ok, fails, Os}
use procshared_mem.ShmMem.Locks.{ewouldblock}
use procshared_mem.ShmMem.Processes.{
  outside, starting, waiting, opening, in_use, World, is_exclusive, move, AllUnlocked, NoExclusive,
  new_header, set_ready, start, create, not_first, init_returns, share, open_ready, die, Steps,
  done, after, IsIdle,
}
use procshared_mem.ShmMem.Users.{using, using_on, in_use-Steps, sharing_value-Using, set_up-Steps}
use procshared_mem.ShmMem.Setup.{Request, Turn, necessary_size, setup_loop}
use procshared_mem.ShmMem.Retry.{IsOpenable, between, IsMissed, setup_loop-AllMissed}

abbrev object : ℕ
object = 5

abbrev w0 : World
w0 = record { named = none; ready = λ o. false; value = λ o. 0; phase = λ p. outside }

abbrev w1 : World
w1 = move w0 0 starting

abbrev w2 : World
w2 = new_header w1 0 5

abbrev w3 : World
w3 = set_ready w2 0 5 9

abbrev w4 : World
w4 = move w3 0 opening

abbrev w5 : World
w5 = move w4 0 (in_use 5)

abbrev w6 : World
w6 = move w5 1 starting

abbrev w7 : World
w7 = move w6 1 waiting

abbrev w8 : World
w8 = move w7 1 opening

abbrev w9 : World
w9 = move w8 1 (in_use 5)

all_unlocked : AllUnlocked w1
all_unlocked q = elim (Bool-cases (q == 0)) [ inl e ↦ rw e refl | inr e ↦ rw e refl ]

w3_unlocked : NoExclusive w3
w3_unlocked q = elim (Bool-cases (q == 0)) [ inl e ↦ rw e refl | inr e ↦ rw e refl ]

w7_unlocked : NoExclusive w7
w7_unlocked q = elim (Bool-cases (q == 0)) [
  | inl e ↦ elim (Bool-cases (q == 1)) [ inl f ↦ rw (e, f) refl | inr f ↦ rw (e, f) refl ]
  | inr e ↦ elim (Bool-cases (q == 1)) [ inl f ↦ rw (e, f) refl | inr f ↦ rw (e, f) refl ]
]

to_w5 : Steps w0 w5
to_w5 =
    after
      (after
        (after (after (after done (start 0 refl)) (create 0 5 refl all_unlocked (inr refl)))
          (init_returns 0 5 9 refl))
        (share 0 refl w3_unlocked))
      (open_ready 0 5 refl refl refl)

to_w9 : Steps w0 w9
to_w9 =
    after
      (after (after (after to_w5 (start 1 refl)) (not_first 1 0 refl refl))
        (share 1 refl w7_unlocked))
      (open_ready 1 5 refl refl refl)

w0-IsIdle : IsIdle w0
w0-IsIdle = record { idle = λ p. refl }

in_use-Steps_example :
    (object ≡ 5)
    × (w9.named ≡ some 5)
    × (w9.ready 5 ≡ true)
    × ((k : ℕ) → is_exclusive (w9.phase k) ≡ false)
in_use-Steps_example = in_use-Steps w0 w9 0 1 object 5 w0-IsIdle to_w9 refl refl

-- The creator dies, and process 1 goes on.
sharing_value-Using_example :
    ((move w9 0 outside).named ≡ some 5)
    × ((move w9 0 outside).ready 5 ≡ true)
    × ((move w9 0 outside).value 5 ≡ w9.value 5)
sharing_value-Using_example =
    sharing_value-Using w0 w9 (move w9 0 outside) 1 5 w0-IsIdle to_w9
      (using_on (using refl) (die 0) refl)

set_up-Steps_example : (w : World) × Steps w1 w × (w.phase 0 ≡ in_use 5) × (w.value 5 ≡ 9)
set_up-Steps_example = set_up-Steps w1 0 5 9 refl all_unlocked (inr refl)

abbrev request : Request
request = record {
  page_size = 4096;
  name_empty = false;
  slash_first = true;
  fname_empty = false;
  length = 100;
}

-- Another process is first, the time is over, and the object is not there.
abbrev missed : Turn
missed = record {
  file = ok 4;
  exclusive = fails ewouldblock;
  create_shm = fails 13;
  create_size = fails 13;
  create_map = fails 13;
  functor = none;
  shared = (ok 0, true) ∷ [];
  open_fd = fails 2;
  open_map = fails 2;
  status = 0;
  unlock = ok 0;
}

abbrev system : Os
system = record { is_open = λ f. f == 3; is_mapped = λ a. false }

request-IsOpenable : IsOpenable request
unfolding necessary_size
request-IsOpenable = record {
  name = refl;
  file = refl;
  not_zero = omega arith;
  not_long = omega arith;
}

missed-IsMissed : IsMissed missed
missed-IsMissed = record {
  fd = 4;
  file = refl;
  exclusive = refl;
  late = true;
  tries = [];
  shared = refl;
  number = 2;
  missing = refl;
  unlock = refl;
}

setup_loop-AllMissed_example : setup_loop request (missed ∷ missed ∷ []) (between system 3) ≡ none
setup_loop-AllMissed_example =
    setup_loop-AllMissed request (missed ∷ missed ∷ []) system 3 request-IsOpenable
      (missed-IsMissed, (missed-IsMissed, tt))

-- The object is mapped, and was never made ready.
abbrev unready : Turn
unready = record missed { open_fd = ok 7; open_map = ok 8192 }
