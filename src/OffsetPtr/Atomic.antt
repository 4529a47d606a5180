-- ===== src/OffsetPtr/Atomic.antt =====
-- libipsm_mem/inc/offset_ptr.hpp: `atomic_offset_ptr<T>`. Each member function makes one access to
-- the atomic `at_offset_`, so it is one step. A `value_type` is an `offset_ptr<T>`, given by the
-- address that it stands for.
use procshared_mem.Base.{ℕ, ◌*◌, ◌%◌, ◌≡◌, ◌≢◌, ◌==◌, if◌then◌else◌, arith}
use procshared_mem.Base.Word.{IsWord, word_mod, add_word, sub_word}
use procshared_mem.OffsetPtr.{Ptr, null, Offsets, write}

unfoldable pub calc_offset : Ptr → Ptr → ℕ
calc_offset base_p p = if p == null then 0 else sub_word p base_p

-- Unlike that of `offset_ptr`, this has no test for the null offset.
unfoldable pub calc_address : Ptr → ℕ → Ptr
calc_address this offset = add_word this offset

unfoldable pub calc_addr_diff : ℕ → ℕ → ℕ
calc_addr_diff size n = n * size % word_mod

unfoldable pub store : Offsets → Ptr → Ptr → Offsets
unfolding write calc_offset
store m this desired = write m this (calc_offset this desired)

unfoldable pub load : Offsets → Ptr → Ptr
unfolding calc_address
load m this = calc_address this (m this)

unfoldable pub exchange : Offsets → Ptr → Ptr → Offsets × Ptr
unfolding write calc_offset calc_address
exchange m this desired = (write m this (calc_offset this desired), calc_address this (m this))

unfoldable pub fetch_add : ℕ → Offsets → Ptr → ℕ → Offsets × Ptr
unfolding write calc_address calc_addr_diff
fetch_add size m this operand =
    (write m this (add_word (m this) (calc_addr_diff size operand)), calc_address this (m this))

unfoldable pub fetch_sub : ℕ → Offsets → Ptr → ℕ → Offsets × Ptr
unfolding write calc_address calc_addr_diff
fetch_sub size m this operand =
    (write m this (sub_word (m this) (calc_addr_diff size operand)), calc_address this (m this))

unfoldable pub pre_increment : ℕ → Offsets → Ptr → Offsets × Ptr
unfolding fetch_add
pre_increment size m this = let (m', ans) = fetch_add size m this 1 in (m', add_word ans size)

unfoldable pub pre_decrement : ℕ → Offsets → Ptr → Offsets × Ptr
unfolding fetch_sub
pre_decrement size m this = let (m', ans) = fetch_sub size m this 1 in (m', sub_word ans size)

-- What `store` puts in, `load` gives back, unless it is null: null reads back as the address of the
-- atomic object itself.
pub load-store :
    (m : Offsets) (this desired : Ptr)
    → IsWord this
    → IsWord desired
    → load (store m this desired) this ≡ (if desired == null then this else desired)
unfolding load store
load-store m this desired hthis hd = ground arith

-- `exchange` answers what a `load` before it would and leaves what a `store` would; a second exchange
-- with that answer brings the offset back, unless the answer was null or the offset was no word.
pub exchange-exchange :
    (m : Offsets) (this desired : Ptr)
    → IsWord this
    → IsWord (m this)
    → load m this ≢ null
    → ((exchange m this desired).1 ≡ load m this)
      × (store (exchange m this desired).0 this (exchange m this desired).1 this ≡ m this)
unfolding exchange load store
exchange-exchange m this desired hthis hoff ne = (ground arith, ground arith)

-- `fetch_sub` undoes `fetch_add` of the same operand with every wrap-around: the offset comes back,
-- the first call answers the address before and the second the address between.
pub fetch_sub-fetch_add :
    (size : ℕ) (m : Offsets) (this operand : Ptr)
    → IsWord (m this)
    → let (m', old) = fetch_add size m this operand in
      let (m'', between) = fetch_sub size m' this operand in
      (m'' this ≡ m this) × (old ≡ load m this) × (between ≡ load m' this)
unfolding fetch_add fetch_sub load
fetch_sub-fetch_add size m this operand hoff = (ground arith, ground arith, ground arith)

-- `++` answers the address that the object stands for afterwards, and `--` too.
pub pre_increment-load :
    (size : ℕ) (m : Offsets) (this : Ptr)
    → IsWord size
    → ((pre_increment size m this).1 ≡ load (pre_increment size m this).0 this)
      × ((pre_decrement size m this).1 ≡ load (pre_decrement size m this).0 this)
unfolding pre_increment pre_decrement load
pre_increment-load size m this h = (ground arith, ground arith)
