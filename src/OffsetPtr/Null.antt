-- ===== src/OffsetPtr/Null.antt =====
-- libipsm_mem/inc/offset_ptr.hpp: the comparisons of an `offset_ptr` with `nullptr` before C++20. Each
-- builds a null object, here at the address `tmp`, and compares with it.
use procshared_mem.Base.{Bool, true, false, not, ◌≡◌, ◌≢◌, ◌==◌, arith}
use procshared_mem.OffsetPtr.{
  Ptr, null, Offsets, get, construct_nullptr, eq, ne, lt, le, gt, ge, calc_address,
}

unfoldable pub eq_null : Offsets → (a tmp : Ptr) → Bool
unfolding construct_nullptr eq
eq_null m a tmp = eq (construct_nullptr m tmp) a tmp

unfoldable pub ne_null : Offsets → (a tmp : Ptr) → Bool
unfolding construct_nullptr ne
ne_null m a tmp = ne (construct_nullptr m tmp) a tmp

unfoldable pub lt_null : Offsets → (a tmp : Ptr) → Bool
unfolding construct_nullptr lt
lt_null m a tmp = lt (construct_nullptr m tmp) a tmp

unfoldable pub le_null : Offsets → (a tmp : Ptr) → Bool
unfolding construct_nullptr le
le_null m a tmp = le (construct_nullptr m tmp) a tmp

unfoldable pub gt_null : Offsets → (a tmp : Ptr) → Bool
unfolding construct_nullptr gt
gt_null m a tmp = gt (construct_nullptr m tmp) a tmp

unfoldable pub ge_null : Offsets → (a tmp : Ptr) → Bool
unfolding construct_nullptr ge
ge_null m a tmp = ge (construct_nullptr m tmp) a tmp

unfoldable pub null_eq : Offsets → (tmp b : Ptr) → Bool
unfolding construct_nullptr eq
null_eq m tmp b = eq (construct_nullptr m tmp) tmp b

unfoldable pub null_ne : Offsets → (tmp b : Ptr) → Bool
unfolding construct_nullptr ne
null_ne m tmp b = ne (construct_nullptr m tmp) tmp b

unfoldable pub null_lt : Offsets → (tmp b : Ptr) → Bool
unfolding construct_nullptr lt
null_lt m tmp b = lt (construct_nullptr m tmp) tmp b

unfoldable pub null_le : Offsets → (tmp b : Ptr) → Bool
unfolding construct_nullptr le
null_le m tmp b = le (construct_nullptr m tmp) tmp b

unfoldable pub null_gt : Offsets → (tmp b : Ptr) → Bool
unfolding construct_nullptr gt
null_gt m tmp b = gt (construct_nullptr m tmp) tmp b

unfoldable pub null_ge : Offsets → (tmp b : Ptr) → Bool
unfolding construct_nullptr ge
null_ge m tmp b = ge (construct_nullptr m tmp) tmp b

null_object : (m : Offsets) (tmp : Ptr) → get (construct_nullptr m tmp) tmp ≡ null
unfolding get construct_nullptr calc_address
null_object m tmp = ground arith

other_object : (m : Offsets) (tmp a : Ptr) → a ≢ tmp → get (construct_nullptr m tmp) a ≡ get m a
unfolding get construct_nullptr
other_object m tmp a ne = ground arith

-- The comparisons with `nullptr` at an object other than the temporary one: only null is equal to it
-- and none is less.
pub compare-null :
    (m : Offsets) (a tmp : Ptr)
    → a ≢ tmp
    → let is_null = get m a == null in
      (eq_null m a tmp ≡ is_null)
      × (ne_null m a tmp ≡ not is_null)
      × (lt_null m a tmp ≡ false)
      × (le_null m a tmp ≡ is_null)
      × (gt_null m a tmp ≡ not is_null)
      × (ge_null m a tmp ≡ true)
      × (null_eq m tmp a ≡ is_null)
      × (null_ne m tmp a ≡ not is_null)
      × (null_lt m tmp a ≡ not is_null)
      × (null_le m tmp a ≡ true)
      × (null_gt m tmp a ≡ false)
      × (null_ge m tmp a ≡ is_null)
unfolding eq_null ne_null lt_null le_null gt_null ge_null null_eq null_ne null_lt null_le null_gt
    null_ge eq ne lt le gt ge
compare-null m a tmp differ =
    let n = null_object m tmp in let o = other_object m tmp a differ in ground (arith, n, o)
