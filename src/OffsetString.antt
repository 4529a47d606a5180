-- ===== src/OffsetString.antt =====
-- `offset_basic_string<char>` of libipsm_mem/inc/offset_string.hpp. Strings are named by an index; their
-- small buffers and the outer ones are in one memory of characters. What the allocator answers for an
-- outer buffer is an argument: `none` where it throws, 0 for null. The constructor of a `char` does not
-- throw, so the `catch` block of `allocate_outer_buffer` is never entered.
pub mod Buffers
pub mod Copies
pub mod Counting
pub mod Dangling
pub mod Endless
pub mod Moves
pub mod Runs
pub mod Texts
mod Tests
use procshared_mem.Base.{
  ℕ, zero, suc, ◌+◌, ◌-◌, Bool, true, false, not, ◌&&◌, Option, none, some, ◌==◌, ltb, leb,
  if◌then◌else◌,
}
use procshared_mem.Base.Tally.{update}

-- `alloc_`, `oup_outer_buffer_` (0 for null), `outer_buffer_array_size_` and `op_string_`.
pub record Str : Type 0 where
  pub alloc : ℕ
  pub outer_buffer : ℕ
  pub outer_size : ℕ
  pub op_string : ℕ

-- With `soo_buff_size_`, the address of the `soo_buff_` of each string, and the outer buffers that the
-- allocator has handed out.
pub record State : Type 0 where
  pub strs : ℕ → Str
  pub chars : ℕ → ℕ
  pub taken : ℕ → Bool
  pub soo_size : ℕ
  pub soo_buff : ℕ → ℕ

-- How an operation ends: with a state, an exception, or a copy to a null pointer.
pub data Result : Type 0 where
  done : State → Result
  throws : State → Result
  fault : Result

abbrev pub memcpy : (ℕ → ℕ) → (dst src n : ℕ) → ℕ → ℕ
memcpy f dst src n a = if leb dst a && ltb a (dst + n) then f (src + (a - dst)) else f a

abbrev pub zeros : (ℕ → ℕ) → (dst n : ℕ) → ℕ → ℕ
zeros f dst n a = if leb dst a && ltb a (dst + n) then 0 else f a

-- `op_string_ = soo_buff_` and `op_string_ = oup_outer_buffer_`.
unfoldable pub show_soo : State → ℕ → State
show_soo st this = record st {
  strs = update st.strs this (record (st.strs this) { op_string = st.soo_buff this });
}

unfoldable pub show_outer : State → ℕ → State
show_outer st this = record st {
  strs = update st.strs this (record (st.strs this) { op_string = (st.strs this).outer_buffer });
}

-- `soo_buff_[0] = 0`.
unfoldable pub clear_soo : State → ℕ → State
clear_soo st this = record st { chars = update st.chars (st.soo_buff this) 0 }

unfoldable pub construct : State → ℕ → ℕ → State
construct st this a = record st {
  strs =
      update st.strs this
        (record { alloc = a; outer_buffer = 0; outer_size = 0; op_string = st.soo_buff this });
  chars = zeros st.chars (st.soo_buff this) st.soo_size;
}

unfoldable pub deallocate_outer_buffer : State → ℕ → State
deallocate_outer_buffer st this = if (st.strs this).outer_buffer == 0 then st else record st {
  taken = update st.taken (st.strs this).outer_buffer false;
  strs = update st.strs this (record (st.strs this) { outer_buffer = 0; outer_size = 0 });
}

-- A new buffer of zeros.
unfoldable pub set_outer_buffer : State → ℕ → ℕ → ℕ → State
set_outer_buffer st this n p = if p == 0 then st else record st {
  taken = update st.taken p true;
  chars = zeros st.chars p n;
  strs = update st.strs this (record (st.strs this) { outer_buffer = p; outer_size = n });
}

-- Whether the allocator has thrown is the second part of the answer.
unfoldable pub allocate_outer_buffer : State → ℕ → ℕ → Option ℕ → State × Bool
unfolding deallocate_outer_buffer set_outer_buffer
allocate_outer_buffer st this n ans =
    if not ((st.strs this).outer_buffer == 0) && leb n (st.strs this).outer_size
    then (st, false)
    else elim ans [
      | none ↦ (deallocate_outer_buffer st this, true)
      | some p ↦ (set_outer_buffer (deallocate_outer_buffer st this) this n p, false)
    ]

unfoldable pub destroy : State → ℕ → State
destroy st this = deallocate_outer_buffer st this

-- The small buffer of `str` copied to the one of `this`.
unfoldable pub copy_soo : State → ℕ → ℕ → State
unfolding show_soo
copy_soo st this str =
    show_soo
      (record st { chars = memcpy st.chars (st.soo_buff this) (st.soo_buff str) st.soo_size }) this

-- The outer buffer of `str` copied to the one that `this` has got.
unfoldable pub copy_outer : State × Bool → ℕ → ℕ → Result
unfolding show_outer
copy_outer (st, true) this str = throws st
copy_outer (st, false) this str =
    if (st.strs this).outer_buffer == 0
    then fault
    else done (
        show_outer
          (record st {
            chars =
                memcpy st.chars (st.strs this).outer_buffer (st.strs str).outer_buffer
                  (st.strs str).outer_size;
          })
          this)

-- A constructor that throws after the one that it delegates to has run destroys the object.
unfoldable pub destroy_thrown : Result → ℕ → Result
unfolding destroy
destroy_thrown (throws st) this = throws (destroy st this)
destroy_thrown r this = r

-- `offset_basic_string( const offset_basic_string&, const Allocator& )`, with `std::bad_alloc` for null.
unfoldable pub copy_construct : State → (this str a : ℕ) → Option ℕ → Result
unfolding construct copy_soo allocate_outer_buffer copy_outer destroy_thrown
copy_construct st this str a ans =
    let st0 = construct st this a in
    if (st0.strs str).outer_buffer == 0
    then done (copy_soo st0 this str)
    else (let r = allocate_outer_buffer st0 this (st0.strs str).outer_size ans in
        destroy_thrown
          (if (r.0.strs this).outer_buffer == 0 then throws r.0 else copy_outer r this str) this)

-- `this` gets the outer buffer of `str`, and `str` is left empty.
unfoldable pub take_over : State → ℕ → ℕ → State
unfolding clear_soo show_soo show_outer
take_over st this str =
    let o = st.strs str in
    let got = record st {
      strs =
          update st.strs this
            (record (st.strs this) { outer_buffer = o.outer_buffer; outer_size = o.outer_size });
    } in
    let left = record (show_outer got this) {
      strs =
          update (show_outer got this).strs str
            (record ((show_outer got this).strs str) { outer_buffer = 0; outer_size = 0 });
    } in
    clear_soo (show_soo left str) str

unfoldable pub move_construct : State → (this str : ℕ) → State
unfolding construct copy_soo clear_soo show_soo take_over
move_construct st this str =
    let st0 = construct st this (st.strs str).alloc in
    if (st0.strs str).outer_buffer == 0
    then show_soo (clear_soo (copy_soo st0 this str) str) str
    else take_over st0 this str

-- `if constexpr ( propagate… )` of the assignments.
unfoldable pub propagate_alloc : Bool → State → ℕ → ℕ → State
propagate_alloc false st this str = st
propagate_alloc true st this str =
    let st' = deallocate_outer_buffer st this in
    record st' {
      strs = update st'.strs this (record (st'.strs this) { alloc = (st.strs str).alloc });
    }

-- The part that both assignments have.
unfoldable pub copy_buffers : State → (this str : ℕ) → Option ℕ → Result
unfolding copy_soo deallocate_outer_buffer allocate_outer_buffer copy_outer
copy_buffers st this str ans =
    if (st.strs str).outer_buffer == 0
    then done (copy_soo (deallocate_outer_buffer st this) this str)
    else copy_outer (allocate_outer_buffer st this (st.strs str).outer_size ans) this str

unfoldable pub copy_assign : Bool → State → (this str : ℕ) → Option ℕ → Result
unfolding propagate_alloc copy_buffers
copy_assign propagate st this str ans =
    if this == str
    then done st
    else copy_buffers (propagate_alloc propagate st this str) this str ans

-- The end of a move assignment.
unfoldable pub empty_source : Result → ℕ → Result
unfolding deallocate_outer_buffer show_soo clear_soo
empty_source (done st) str = done (clear_soo (show_soo (deallocate_outer_buffer st str) str) str)
empty_source r str = r

unfoldable pub move_assign : Bool → State → (this str : ℕ) → Option ℕ → Result
unfolding propagate_alloc copy_buffers empty_source
move_assign propagate st this str ans =
    if this == str
    then done st
    else empty_source (copy_buffers (propagate_alloc propagate st this str) this str ans) str

unfoldable pub clear : State → ℕ → State
unfolding clear_soo show_soo deallocate_outer_buffer
clear st this = deallocate_outer_buffer (show_soo (clear_soo st this) this) this

unfoldable pub empty : State → ℕ → Bool
empty st this = st.chars (st.strs this).op_string == 0

-- The characters of the small buffers change places.
unfoldable pub swap_chars : ℕ → (ℕ → ℕ) → (a b : ℕ) → ℕ → ℕ
swap_chars zero f a b = f
swap_chars (suc n) f a b =
    let g = swap_chars n f a b in update (update g (a + n) (g (b + n))) (b + n) (g (a + n))

-- `swap` where the allocators go with the buffers.
unfoldable pub swap_propagating : State → ℕ → ℕ → State
unfolding swap_chars
swap_propagating st this str =
    if this == str
    then st
    else (let x = st.strs this in
        let y = st.strs str in
        let shown = λ (was_small : Bool) (soo outer : ℕ). if was_small then soo else outer in
        record st {
          strs =
              update
                (update st.strs this (record {
                  alloc = y.alloc;
                  outer_buffer = y.outer_buffer;
                  outer_size = y.outer_size;
                  op_string =
                      shown (y.op_string == st.soo_buff str) (st.soo_buff this) y.outer_buffer;
                }))
                str
                (record {
                  alloc = x.alloc;
                  outer_buffer = x.outer_buffer;
                  outer_size = x.outer_size;
                  op_string =
                      shown (x.op_string == st.soo_buff this) (st.soo_buff str) x.outer_buffer;
                });
          chars = swap_chars st.soo_size st.chars (st.soo_buff this) (st.soo_buff str);
        })
