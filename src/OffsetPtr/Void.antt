-- ===== src/OffsetPtr/Void.antt =====
-- libipsm_mem/inc/offset_ptr.hpp: the specialisation `offset_ptr<void>`, which has its own copies of the
-- member functions, no arithmetic, and a cast back to a typed pointer.
use procshared_mem.Base.{ℕ, Bool, not, ◌≡◌, ◌≢◌, ◌==◌, if◌then◌else◌, arith}
use procshared_mem.Base.Word.{IsWord, add_word, sub_word}
use procshared_mem.OffsetPtr
use procshared_mem.OffsetPtr.{Ptr, null, Offsets, write}

unfoldable pub calc_address : Ptr → ℕ → Ptr
calc_address this offset = if offset == 0 then null else add_word this offset

unfoldable pub calc_offset : Ptr → Ptr → ℕ
calc_offset base_p p = if p == null then 0 else sub_word p base_p

unfoldable pub calc_offset_as_nullptr : Ptr → ℕ
calc_offset_as_nullptr base_p = 0

unfoldable pub get : Offsets → Ptr → Ptr
unfolding calc_address
get m this = calc_address this (m this)

unfoldable pub get_offset : Offsets → Ptr → ℕ
get_offset m this = m this

unfoldable pub operator_bool : Offsets → Ptr → Bool
unfolding get
operator_bool m this = not (get m this == null)

unfoldable pub construct_default : Offsets → Ptr → Offsets
unfolding write calc_offset_as_nullptr
construct_default m this = write m this (calc_offset_as_nullptr this)

unfoldable pub construct : Offsets → Ptr → Ptr → Offsets
unfolding write calc_offset
construct m this p = write m this (calc_offset this p)

unfoldable pub assign_nullptr : Offsets → Ptr → Offsets
unfolding write calc_offset_as_nullptr
assign_nullptr m this = write m this (calc_offset_as_nullptr this)

unfoldable pub copy_construct : Offsets → Ptr → Ptr → Offsets
unfolding write calc_offset get
copy_construct m this orig = write m this (calc_offset this (get m orig))

unfoldable pub move_construct : Offsets → Ptr → Ptr → Offsets
unfolding write calc_offset get assign_nullptr
move_construct m this orig = assign_nullptr (write m this (calc_offset this (get m orig))) orig

unfoldable pub copy_assign : Offsets → Ptr → Ptr → Offsets
unfolding write calc_offset get
copy_assign m this orig = if this == orig then m else write m this (calc_offset this (get m orig))

unfoldable pub move_assign : Offsets → Ptr → Ptr → Offsets
unfolding write calc_offset get assign_nullptr
move_assign m this orig =
    if this == orig then m else assign_nullptr (write m this (calc_offset this (get m orig))) orig

-- From an `offset_ptr<U>`, whose own `calc_address` and assignment of `nullptr` are called.
unfoldable pub convert_construct : Offsets → Ptr → Ptr → Offsets
unfolding write calc_offset
convert_construct m this orig = write m this (calc_offset this (OffsetPtr.get m orig))

unfoldable pub convert_move_construct : Offsets → Ptr → Ptr → Offsets
unfolding write calc_offset
convert_move_construct m this orig =
    OffsetPtr.assign_nullptr (write m this (calc_offset this (OffsetPtr.get m orig))) orig

unfoldable pub convert_assign : Offsets → Ptr → Ptr → Offsets
unfolding write calc_offset
convert_assign m this orig = write m this (calc_offset this (OffsetPtr.get m orig))

unfoldable pub convert_move_assign : Offsets → Ptr → Ptr → Offsets
unfolding write calc_offset
convert_move_assign m this orig =
    OffsetPtr.assign_nullptr (write m this (calc_offset this (OffsetPtr.get m orig))) orig

unfoldable pub construct_nullptr : Offsets → Ptr → Offsets
unfolding write calc_offset_as_nullptr
construct_nullptr m this = write m this (calc_offset_as_nullptr this)

unfoldable pub swap : Offsets → Ptr → Ptr → Offsets
unfolding write calc_offset get
swap m this x =
    let my = get m this in
    let theirs = get m x in write (write m x (calc_offset x my)) this (calc_offset this theirs)

-- The answer is a new object at `ans`.
unfoldable pub reinterpret_to_offset_ptr : Offsets → (this ans : Ptr) → Offsets
unfolding get
reinterpret_to_offset_ptr m this ans = OffsetPtr.construct m ans (get m this)

-- A typed pointer that is kept in an `offset_ptr<void>` and cast back: the new object stands for what
-- the typed one stood for, unless that is the address of one of the two new objects, and when it is
-- moved there and not copied the typed one is null after that.
pub reinterpret-convert :
    (m : Offsets) (orig void_ptr ans : Ptr)
    → IsWord void_ptr
    → IsWord ans
    → orig ≢ void_ptr
    → orig ≢ ans
    → void_ptr ≢ ans
    → OffsetPtr.get m orig ≢ void_ptr
    → OffsetPtr.get m orig ≢ ans
    → let copied = reinterpret_to_offset_ptr (convert_construct m void_ptr orig) void_ptr ans in
      let moved = reinterpret_to_offset_ptr (convert_move_construct m void_ptr orig) void_ptr ans in
      (OffsetPtr.get copied ans ≡ OffsetPtr.get m orig)
      × (OffsetPtr.get copied orig ≡ OffsetPtr.get m orig)
      × (OffsetPtr.get moved ans ≡ OffsetPtr.get m orig)
      × (OffsetPtr.get moved orig ≡ null)
unfolding reinterpret_to_offset_ptr convert_construct convert_move_construct get calc_address
    OffsetPtr.get OffsetPtr.construct OffsetPtr.assign_nullptr OffsetPtr.calc_address
    OffsetPtr.calc_offset
reinterpret-convert m orig void_ptr ans wv wa a b c d e =
    (ground arith, ground arith, ground arith, ground arith)
