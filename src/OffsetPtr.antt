-- ===== src/OffsetPtr.antt =====
-- libipsm_mem/inc/offset_ptr.hpp: `offset_ptr<T>`. An object is named by its own address, and the
-- state is the `offset_` that each address holds. A `T*` is an address; a `ptrdiff_t` is its 64-bit
-- pattern, so that `p += d` adds `d * sizeof(T)` modulo 2 ^ 64. `size` is `sizeof(T)`.
pub mod Address
pub mod Assign
pub mod Arithmetic
pub mod Atomic
pub mod Relocate
pub mod Moved
pub mod Null
pub mod Void
pub mod Tests
mod MovedTests
use procshared_mem.Base.{ℕ, ◌+◌, ◌*◌, ◌%◌, Bool, not, ◌&&◌, ◌||◌, ◌==◌, ltb, if◌then◌else◌}
use procshared_mem.Base.Word.{word_mod, add_word, sub_word}

abbrev pub Ptr : Type 0
Ptr = ℕ

abbrev pub null : Ptr
null = 0

-- The value of `offset_` in the object at each address.
abbrev pub Offsets : Type 0
Offsets = Ptr → ℕ

unfoldable pub write : Offsets → Ptr → ℕ → Offsets
write m this v a = if a == this then v else m a

unfoldable pub calc_offset : Ptr → Ptr → ℕ
calc_offset base_p p = if p == null then 0 else sub_word p base_p

unfoldable pub calc_offset_as_nullptr : Ptr → ℕ
calc_offset_as_nullptr base_p = 0

unfoldable pub calc_address : Ptr → ℕ → Ptr
calc_address this offset = if offset == 0 then null else add_word this offset

unfoldable pub get : Offsets → Ptr → Ptr
get m this = calc_address this (m this)

unfoldable pub get_offset : Offsets → Ptr → ℕ
get_offset m this = m this

-- `&p[i]`, for a `ptrdiff_t` as a 64-bit pattern.
unfoldable pub subscript : ℕ → Offsets → Ptr → ℕ → Ptr
unfolding get
subscript size m this i = add_word (get m this) (i * size)

unfoldable pub operator_bool : Offsets → Ptr → Bool
unfolding get
operator_bool m this = not (get m this == null)

-- Constructors.
unfoldable pub construct_default : Offsets → Ptr → Offsets
unfolding write calc_offset_as_nullptr
construct_default m this = write m this (calc_offset_as_nullptr this)

unfoldable pub construct : Offsets → Ptr → Ptr → Offsets
unfolding write calc_offset
construct m this p = write m this (calc_offset this p)

unfoldable pub copy_construct : Offsets → Ptr → Ptr → Offsets
unfolding write calc_offset get
copy_construct m this orig = write m this (calc_offset this (get m orig))

unfoldable pub assign_nullptr : Offsets → Ptr → Offsets
unfolding write calc_offset_as_nullptr
assign_nullptr m this = write m this (calc_offset_as_nullptr this)

unfoldable pub move_construct : Offsets → Ptr → Ptr → Offsets
unfolding copy_construct assign_nullptr
move_construct m this orig = assign_nullptr (copy_construct m this orig) orig

-- Assignment.
unfoldable pub copy_assign : Offsets → Ptr → Ptr → Offsets
unfolding write calc_offset get
copy_assign m this orig = if this == orig then m else write m this (calc_offset this (get m orig))

unfoldable pub move_assign : Offsets → Ptr → Ptr → Offsets
unfolding write calc_offset get assign_nullptr
move_assign m this orig =
    if this == orig then m else assign_nullptr (write m this (calc_offset this (get m orig))) orig

-- From an `offset_ptr<U>` whose pointer converts: no test for the object itself.
unfoldable pub convert_assign : Offsets → Ptr → Ptr → Offsets
unfolding write calc_offset get
convert_assign m this orig = write m this (calc_offset this (get m orig))

unfoldable pub convert_move_assign : Offsets → Ptr → Ptr → Offsets
unfolding write calc_offset get assign_nullptr
convert_move_assign m this orig = assign_nullptr (write m this (calc_offset this (get m orig))) orig

-- The constructors from an `offset_ptr<U>` whose pointer converts, and from `nullptr`.
unfoldable pub convert_construct : Offsets → Ptr → Ptr → Offsets
unfolding write calc_offset get
convert_construct m this orig = write m this (calc_offset this (get m orig))

unfoldable pub convert_move_construct : Offsets → Ptr → Ptr → Offsets
unfolding convert_construct assign_nullptr
convert_move_construct m this orig = assign_nullptr (convert_construct m this orig) orig

unfoldable pub construct_nullptr : Offsets → Ptr → Offsets
unfolding write calc_offset_as_nullptr
construct_nullptr m this = write m this (calc_offset_as_nullptr this)

unfoldable pub swap : Offsets → Ptr → Ptr → Offsets
unfolding write calc_offset get
swap m this x =
    let my = get m this in
    let theirs = get m x in write (write m x (calc_offset x my)) this (calc_offset this theirs)

-- Pointer arithmetic.
unfoldable pub add_assign : ℕ → Offsets → Ptr → ℕ → Offsets
unfolding write calc_offset get
add_assign size m this d = write m this (calc_offset this (add_word (get m this) (d * size)))

unfoldable pub sub_assign : ℕ → Offsets → Ptr → ℕ → Offsets
unfolding write calc_offset get
sub_assign size m this d =
    write m this (calc_offset this (sub_word (get m this) (d * size % word_mod)))

unfoldable pub pre_increment : ℕ → Offsets → Ptr → Offsets
unfolding write calc_offset get
pre_increment size m this = write m this (calc_offset this (add_word (get m this) size))

unfoldable pub pre_decrement : ℕ → Offsets → Ptr → Offsets
unfolding write calc_offset get
pre_decrement size m this = write m this (calc_offset this (sub_word (get m this) size))

-- The old value is a new object at `ans`.
unfoldable pub post_increment : ℕ → Offsets → (this ans : Ptr) → Offsets
unfolding copy_construct pre_increment
post_increment size m this ans = pre_increment size (copy_construct m ans this) this

unfoldable pub post_decrement : ℕ → Offsets → (this ans : Ptr) → Offsets
unfolding copy_construct pre_decrement
post_decrement size m this ans = pre_decrement size (copy_construct m ans this) this

-- `a + d` and `a - d` build their result at `ans`.
unfoldable pub plus : ℕ → Offsets → (ans a : Ptr) → ℕ → Offsets
unfolding copy_construct add_assign
plus size m ans a d = add_assign size (copy_construct m ans a) ans d

unfoldable pub minus : ℕ → Offsets → (ans a : Ptr) → ℕ → Offsets
unfolding copy_construct sub_assign
minus size m ans a d = sub_assign size (copy_construct m ans a) ans d

-- Comparison before C++20.
unfoldable pub eq : Offsets → Ptr → Ptr → Bool
unfolding get
eq m a b = get m a == get m b

unfoldable pub ne : Offsets → Ptr → Ptr → Bool
unfolding eq
ne m a b = not (eq m a b)

unfoldable pub lt : Offsets → Ptr → Ptr → Bool
unfolding get
lt m a b = ltb (get m a) (get m b)

unfoldable pub le : Offsets → Ptr → Ptr → Bool
unfolding lt eq
le m a b = lt m a b || eq m a b

unfoldable pub gt : Offsets → Ptr → Ptr → Bool
unfolding lt
gt m a b = lt m b a

unfoldable pub ge : Offsets → Ptr → Ptr → Bool
unfolding lt eq
ge m a b = lt m b a || eq m a b
