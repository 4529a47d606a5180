-- ===== src/IpsmMalloc/Tests.antt =====
-- The memory is mapped at 0x1000, so it begins for its users at 0x1010; the first process had it at
-- 0x8010 and put the channels at 0x8200.
use procshared_mem.Base.{ℕ, ◌≡◌, refl, true, none, some, [], ◌∷◌, ◌==◌, arith}
use procshared_mem.Base.Word.{sub_word}
use procshared_mem.Malloc
use procshared_mem.OffsetMalloc
use procshared_mem.ShmMem.Setup.{Impl, goes_on, get, get_hint_value}
use procshared_mem.Channels.{channels_offset, find_channels}
use procshared_mem.IpsmMalloc.{
  State, made, construct, find_parts, setup_functor, destroy, move_construct, allocate,
}
use procshared_mem.IpsmMalloc.Parts.{
  AllWhole, stay, then_step, constructs, moves, destroys, AllWhole-Run,
}
use procshared_mem.IpsmMalloc.Connect.{construct-setup_functor, setup_functor-bind_cnt}
use procshared_mem.IpsmMalloc.Moved.{move_construct-stale}

abbrev mapped : Impl
mapped = record {
  os = record { is_open = λ a. a == 3; is_mapped = λ a. a == 0x1000 };
  shared_lock_guard_ = record { fd = some 4; is_locked = true };
  shm_guard_ = record { fd = some 3; p_addr = 0x1000; length = 0x4000 };
}

abbrev handles : OffsetMalloc.State
handles = record { bind_cnt = λ a. 0; p_impl = λ a. 0 }

abbrev start : State
start = record {
  shm_obj = λ i. none;
  heaps = handles;
  p_msgch = λ i. 0;
  headers = λ a. record { status_ = 1; sharing_value_ = 0x1f0 };
  released = [];
}

start-AllWhole : AllWhole start
start-AllWhole i = refl

abbrev connected : State
connected = (construct start 0 9 (some mapped, goes_on, true)).0

abbrev moved : State
moved = move_construct connected 1 0

AllWhole-Run_example : AllWhole (destroy moved 1)
unfolding construct
AllWhole-Run_example = AllWhole-Run start (destroy moved 1) start-AllWhole (
    then_step moved (destroy moved 1)
      (then_step connected moved
        (then_step start connected stay
          (constructs start 0 9 (some mapped, goes_on, true) (omega arith) refl refl))
        (moves connected 1 0 (omega arith) refl))
      (destroys moved 1))

setup_functor-bind_cnt_example : (setup_functor handles 0 1 2 0x8010 0x8200).0.bind_cnt 0x8010 ≡ 0
setup_functor-bind_cnt_example =
    setup_functor-bind_cnt handles 0 1 2 0x8010 0x8200 (omega arith) (omega arith) (omega arith)
      (omega arith) 0x8010

value_lem : 0x1f0 ≡ (setup_functor handles 0 1 2 0x8010 0x8200).1
unfolding setup_functor channels_offset
value_lem = refl

construct-setup_functor_example :
    ((construct start 0 9 (some mapped, goes_on, true)).1 ≡ made)
    × (sub_word (connected.p_msgch 0) 0x1010 ≡ 0x1f0)
    × (connected.heaps.p_impl 0 ≡ 0x1010)
    × (connected.heaps.bind_cnt 0x1010 ≡ 1)
unfolding get
construct-setup_functor_example =
    construct-setup_functor handles 0 1 2 0x8010 0x8200 start 0 9 mapped (omega arith) (omega arith)
      (omega arith) (omega arith) (omega arith) (omega arith) value_lem

move_construct-stale_example :
    let gone = destroy moved 1 in
    (moved.shm_obj 0 ≡ none)
    × ((fuel : ℕ) (impls : ℕ → Malloc.Impl) (n alignment : ℕ)
        → allocate fuel impls moved 0 n alignment ≡ none)
    × (moved.p_msgch 0 ≡ 0x1200)
    × (gone.released ≡ mapped ∷ [])
    × (gone.p_msgch 0 ≡ 0x1200)
unfolding construct find_parts get get_hint_value find_channels
move_construct-stale_example =
    move_construct-stale connected 1 0 mapped (omega arith)
      (AllWhole-Run start connected start-AllWhole (
        then_step start connected stay
          (constructs start 0 9 (some mapped, goes_on, true) (omega arith) refl refl)))
      refl
