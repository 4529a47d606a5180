-- ===== src/OffsetMalloc.antt =====
-- `offset_malloc` of libipsm_mem/src/offset_mallloc.cpp: handles on allocators that lie in shared
-- memory, and the bind count of each (`bind`, `unbind` and `get_bind_count` of
-- libipsm_mem/src/offset_mallloc_impl.cpp). The count is an `int`, a 32-bit word in two's complement;
-- a count below 0 is only reported to the log.
pub mod Binds
mod Tests
use procshared_mem.Base.{
  ℕ, ◌+◌, ◌-◌, ◌%◌, ◌^◌, ◌≤◌, ◌<◌, ◌≡◌, Bool, true, false, Option, none, some, ◌==◌, if◌then◌else◌,
  arith,
}
use procshared_mem.Base.Tally.{update}
use procshared_mem.Malloc
use procshared_mem.Malloc.{Outcome, returns, Impl}

-- `bind_cnt_` of the allocator at each address, and `p_impl_` of each handle, 0 for null.
pub record State : Type 0 where
  pub bind_cnt : ℕ → ℕ
  pub p_impl : ℕ → ℕ

abbrev pub int_mod : ℕ
int_mod = 2 ^ 32

-- The static functions `bind` and `unbind`, which take a null pointer too; `bind` answers its argument.
unfoldable pub bind : (ℕ → ℕ) → ℕ → ℕ → ℕ
bind cnt p_mem = if p_mem == 0 then cnt else update cnt p_mem ((cnt p_mem + 1) % int_mod)

unfoldable pub unbind : (ℕ → ℕ) → ℕ → ℕ → ℕ
unbind cnt p_mem =
    if p_mem == 0 then cnt else update cnt p_mem ((cnt p_mem + int_mod - 1) % int_mod)

unfoldable pub destroy : State → ℕ → State
destroy st this = record {
  bind_cnt = unbind st.bind_cnt (st.p_impl this);
  p_impl = update st.p_impl this 0;
}

unfoldable pub copy_construct : State → ℕ → ℕ → State
copy_construct st this src = record {
  bind_cnt = bind st.bind_cnt (st.p_impl src);
  p_impl = update st.p_impl this (st.p_impl src);
}

unfoldable pub move_construct : State → ℕ → ℕ → State
move_construct st this src = record st {
  p_impl = update (update st.p_impl this (st.p_impl src)) src 0;
}

-- `offset_malloc( void* p_mem )`: a handle on an allocator that is there already.
unfoldable pub attach : State → ℕ → ℕ → State
attach st this p_mem = record {
  bind_cnt = bind st.bind_cnt p_mem;
  p_impl = update st.p_impl this p_mem;
}

unfoldable pub copy_assign : State → ℕ → ℕ → State
copy_assign st this src =
    if this == src then st else if st.p_impl this == st.p_impl src then st else record {
      bind_cnt = bind (unbind st.bind_cnt (st.p_impl this)) (st.p_impl src);
      p_impl = update st.p_impl this (st.p_impl src);
    }

unfoldable pub move_assign : State → ℕ → ℕ → State
move_assign st this src =
    if this == src
    then st
    else if st.p_impl this == st.p_impl src
    then record { bind_cnt = unbind st.bind_cnt (st.p_impl src); p_impl = update st.p_impl src 0 }
    else record {
      bind_cnt = unbind st.bind_cnt (st.p_impl this);
      p_impl = update (update st.p_impl this (st.p_impl src)) src 0;
    }

unfoldable pub swap : State → ℕ → ℕ → State
swap st this src =
    if this == src
    then st
    else record st { p_impl = update (update st.p_impl this (st.p_impl src)) src (st.p_impl this) }

unfoldable pub get_bind_count : State → ℕ → ℕ
get_bind_count st this = if st.p_impl this == 0 then 0 else st.bind_cnt (st.p_impl this)

-- `offset_malloc( void* p_mem, size_t mem_bytes )`, when `placement_new` built the allocator at `p`: its
-- constructor ends with a count of 1.
unfoldable pub place : State → ℕ → ℕ → State
place st this p = record { bind_cnt = update st.bind_cnt p 1; p_impl = update st.p_impl this p }

-- A call through a null handle does nothing: `none` is the answer null, or no answer at all.
unfoldable pub allocate : ℕ → (ℕ → Impl) → State → ℕ → (req_bytes alignment : ℕ) → Option Outcome
allocate fuel impls st this req_bytes alignment =
    if st.p_impl this == 0
    then none
    else some (Malloc.allocate fuel (impls (st.p_impl this)) req_bytes alignment)

unfoldable pub deallocate : ℕ → (ℕ → Impl) → State → ℕ → ℕ → Option Outcome
deallocate fuel impls st this p =
    if st.p_impl this == 0 then none else some (Malloc.deallocate fuel (impls (st.p_impl this)) p)

unfoldable pub is_belong_to : (ℕ → Impl) → State → ℕ → ℕ → Bool
is_belong_to impls st this p =
    if st.p_impl this == 0 then false else Malloc.is_belong_to (impls (st.p_impl this)) p
