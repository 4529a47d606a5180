-- ===== src/UniquePtr/Compare.antt =====
-- The comparisons of libipsm_mem/inc/offset_unique_ptr.hpp before C++20. `std::less` of two pointers is
-- the order of their addresses.
use procshared_mem.Base.{ℕ, ◌≡◌, Bool, not, ◌||◌, ◌==◌, ltb, arith}
use procshared_mem.UniquePtr.{Memory, get}

unfoldable pub eq : Memory → (a b : ℕ) → Bool
unfolding get
eq m a b = get m a == get m b

unfoldable pub eq_null : Memory → (x : ℕ) → Bool
unfolding get
eq_null m x = get m x == 0

unfoldable pub null_eq : Memory → (x : ℕ) → Bool
unfolding get
null_eq m x = get m x == 0

unfoldable pub ne : Memory → (a b : ℕ) → Bool
unfolding get
ne m a b = not (get m a == get m b)

unfoldable pub ne_null : Memory → (x : ℕ) → Bool
unfolding get
ne_null m x = not (get m x == 0)

unfoldable pub null_ne : Memory → (x : ℕ) → Bool
unfolding get
null_ne m x = not (get m x == 0)

unfoldable pub lt : Memory → (a b : ℕ) → Bool
unfolding get
lt m a b = ltb (get m a) (get m b)

unfoldable pub lt_null : Memory → (x : ℕ) → Bool
unfolding get
lt_null m x = ltb (get m x) 0

unfoldable pub null_lt : Memory → (x : ℕ) → Bool
unfolding get
null_lt m x = ltb 0 (get m x)

unfoldable pub le : Memory → (a b : ℕ) → Bool
unfolding lt
le m a b = not (lt m b a)

unfoldable pub le_null : Memory → (x : ℕ) → Bool
unfolding null_lt
le_null m x = not (null_lt m x)

unfoldable pub null_le : Memory → (x : ℕ) → Bool
unfolding lt_null
null_le m x = not (lt_null m x)

unfoldable pub gt : Memory → (a b : ℕ) → Bool
unfolding lt
gt m a b = lt m b a

unfoldable pub gt_null : Memory → (x : ℕ) → Bool
unfolding null_lt
gt_null m x = null_lt m x

unfoldable pub null_gt : Memory → (x : ℕ) → Bool
unfolding lt_null
null_gt m x = lt_null m x

unfoldable pub ge : Memory → (a b : ℕ) → Bool
unfolding lt
ge m a b = not (lt m a b)

unfoldable pub ge_null : Memory → (x : ℕ) → Bool
unfolding lt_null
ge_null m x = not (lt_null m x)

unfoldable pub null_ge : Memory → (x : ℕ) → Bool
unfolding null_lt
null_ge m x = not (null_lt m x)

-- An object is before another one, equal to it or behind it, one of the three, by the addresses that
-- `get` answers; the other comparisons are put together from these.
pub compare-get :
    (m : Memory) (a b : ℕ)
    → (lt m a b ≡ ltb (get m a) (get m b))
      × (gt m a b ≡ not (eq m a b || lt m a b))
      × (le m a b ≡ (eq m a b || lt m a b))
      × (ge m a b ≡ (eq m a b || gt m a b))
      × (ne m a b ≡ (lt m a b || gt m a b))
unfolding eq ne lt le gt ge
compare-get m a b = (ground arith, ground arith, ground arith, ground arith, ground arith)

-- To compare with `nullptr`, from either side, is to compare with an object that owns nothing.
pub compare-null :
    (m : Memory) (x e : ℕ)
    → get m e ≡ 0
    → (eq_null m x ≡ eq m x e)
      × (ne_null m x ≡ ne m x e)
      × (lt_null m x ≡ lt m x e)
      × (le_null m x ≡ le m x e)
      × (gt_null m x ≡ gt m x e)
      × (ge_null m x ≡ ge m x e)
      × (null_eq m x ≡ eq m e x)
      × (null_ne m x ≡ ne m e x)
      × (null_lt m x ≡ lt m e x)
      × (null_le m x ≡ le m e x)
      × (null_gt m x ≡ gt m e x)
      × (null_ge m x ≡ ge m e x)
unfolding eq eq_null null_eq ne ne_null null_ne lt lt_null null_lt le le_null null_le gt gt_null
    null_gt ge ge_null null_ge
compare-null m x e z = (
  ground (arith, z),
  ground (arith, z),
  ground (arith, z),
  ground (arith, z),
  ground (arith, z),
  ground (arith, z),
  ground (arith, z),
  ground (arith, z),
  ground (arith, z),
  ground (arith, z),
  ground (arith, z),
  ground (arith, z),
)
