-- ===== src/OffsetString/Counting.antt =====
-- The operations of libipsm_mem/inc/offset_string.hpp that count characters: `size`, the constructor from
-- a text, and the swap where each string keeps its allocator.
use procshared_mem.Base.{
  ℕ, zero, suc, ◌+◌, ◌-◌, true, false, ◌&&◌, Option, none, some, ◌==◌, ltb, leb, if◌then◌else◌,
}
use procshared_mem.OffsetString.{
  State, Result, done, throws, fault, memcpy, show_soo, show_outer, construct,
  allocate_outer_buffer, destroy_thrown, clear,
}

-- The loop of `size`, whose pointer never moves: `none` while it runs.
unfoldable pub size_loop : ℕ → (ℕ → ℕ) → (p ans : ℕ) → Option ℕ
size_loop zero f p ans = none
size_loop (suc fuel) f p ans = elim (f p == 0) [
  | true ↦ some ans
  | false ↦ size_loop fuel f p (ans + 1)
]

unfoldable pub size : ℕ → State → ℕ → Option ℕ
unfolding size_loop
size fuel st this = size_loop fuel st.chars (st.strs this).op_string 0

-- `n` characters from `s` on become the text.
unfoldable pub copy_text : State → (this s n : ℕ) → Option ℕ → Result
unfolding allocate_outer_buffer show_outer destroy_thrown
copy_text st this s n ans =
    if leb n st.soo_size
    then done (record st { chars = memcpy st.chars (st.soo_buff this) s n })
    else (let r = allocate_outer_buffer st this n ans in
        let p = (r.0.strs this).outer_buffer in
        destroy_thrown
          (if p == 0
            then throws r.0
            else if r.1
            then throws r.0
            else done (show_outer (record r.0 { chars = memcpy r.0.chars p s n }) this))
          this)

-- `offset_basic_string( const charT*, const Allocator& )`: the same loop counts the characters of `s`.
unfoldable pub construct_text : ℕ → State → (this s a : ℕ) → Option ℕ → Option Result
unfolding construct size_loop copy_text
construct_text fuel st this s a ans =
    let st0 = construct st this a in
    elim (size_loop fuel st0.chars s 0) [
      | none ↦ none
      | some k ↦ some (copy_text st0 this s (k + 1) ans)
    ]

-- `swap` where each string keeps its allocator, once the sizes are known: the texts are put aside, and
-- each is put into the other string.
unfoldable pub put_text : State → ℕ → (ℕ → ℕ) → ℕ → Option ℕ → Result
unfolding allocate_outer_buffer show_outer show_soo
put_text st this backup n ans =
    let write =
      λ (p : ℕ) (f : ℕ → ℕ) (a : ℕ). if leb p a && ltb a (p + n) then backup (a - p) else f a in
    if ltb st.soo_size n
    then (let r = allocate_outer_buffer st this n ans in
        let p = (r.0.strs this).outer_buffer in
        if r.1
        then throws r.0
        else if p == 0
        then fault
        else done (show_outer (record r.0 { chars = write p r.0.chars }) this))
    else done (show_soo (record st { chars = write (st.soo_buff this) st.chars }) this)

abbrev pub text : State → (this i : ℕ) → ℕ
text st this i = st.chars ((st.strs this).op_string + i)

unfoldable pub put_first : State → (this str m : ℕ) → Option ℕ → Result
unfolding clear put_text
put_first st this str m ans = put_text (clear (clear st this) str) this (text st str) m ans

unfoldable pub exchange_texts : State → (this str n m : ℕ) → (ans ans' : Option ℕ) → Result
unfolding put_first put_text
exchange_texts st this str n m ans ans' = elim (put_first st this str m ans) [
  | done st' ↦ put_text st' str (text st this) n ans'
  | r ↦ r
]

unfoldable pub swap_copying : ℕ → State → (this str : ℕ) → (ans ans' : Option ℕ) → Option Result
unfolding size exchange_texts
swap_copying fuel st this str ans ans' =
    if this == str then some (done st) else elim (size fuel st this) [
      | none ↦ none
      | some k ↦ elim (size fuel st str) [
        | none ↦ none
        | some l ↦ some (exchange_texts st this str (k + 1) (l + 1) ans ans')
      ]
    ]
