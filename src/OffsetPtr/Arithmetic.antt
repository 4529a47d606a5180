-- ===== src/OffsetPtr/Arithmetic.antt =====
-- Pointer arithmetic and comparison of `offset_ptr` objects.
use procshared_mem.Base.{ℕ, ◌*◌, ◌%◌, ◌≡◌, refl, ◌≢◌, true, false, not, arith}
use procshared_mem.Base.Word.{IsWord, word_mod, add_word, sub_word}
use procshared_mem.OffsetPtr.{
  Ptr, Offsets, write, get, add_assign, sub_assign, pre_increment, pre_decrement, eq, ne, lt, le,
  gt, ge,
}
use procshared_mem.OffsetPtr.Address.{calc_address-calc_offset, IsWord-get, get-ne_self}
use procshared_mem.OffsetPtr.Assign.{seen_from}

module _ (size : ℕ) (m : Offsets) (this : Ptr) (hthis : IsWord this) where
  pub add_assign-get :
      (d : ℕ)
      → get (add_assign size m this d) this ≡ seen_from this (add_word (get m this) (d * size))
  unfolding add_assign get write
  add_assign-get d =
      ground (arith, calc_address-calc_offset this (add_word (get m this) (d * size)) hthis)

  pub sub_assign-get :
      (d : ℕ)
      → get (sub_assign size m this d) this
        ≡ seen_from this (sub_word (get m this) (d * size % word_mod))
  unfolding sub_assign get write
  sub_assign-get d =
      ground
        (arith, calc_address-calc_offset this (sub_word (get m this) (d * size % word_mod)) hthis)

  pub pre_increment-get :
      get (pre_increment size m this) this ≡ seen_from this (add_word (get m this) size)
  unfolding pre_increment get write
  pre_increment-get =
      ground (arith, calc_address-calc_offset this (add_word (get m this) size) hthis)

  pub pre_decrement-get :
      get (pre_decrement size m this) this ≡ seen_from this (sub_word (get m this) size)
  unfolding pre_decrement get write
  pre_decrement-get =
      ground (arith, calc_address-calc_offset this (sub_word (get m this) size) hthis)

  seen_from-get : IsWord (m this) → seen_from this (get m this) ≡ get m this
  seen_from-get hoff = ground (arith, get-ne_self m this hthis hoff)

sub_word-add_word : (x e : ℕ) → IsWord x → sub_word (add_word x e) (e % word_mod) ≡ x
sub_word-add_word x e h = omega arith

module _ (size : ℕ) (m : Offsets) (this : Ptr) (hthis : IsWord this) where
  -- `p += d` then `p -= d` gives the address back, for any number of elements and with the wrap-around
  -- of both, unless the address between is the object's own.
  pub sub_assign-add_assign :
      (d : ℕ)
      → IsWord (m this)
      → add_word (get m this) (d * size) ≢ this
      → get (sub_assign size (add_assign size m this d) this d) this ≡ get m this
  sub_assign-add_assign d hoff ne = ground (
    arith,
    sub_assign-get size (add_assign size m this d) this hthis d,
    add_assign-get size m this hthis d,
    seen_from-get size m this hthis hoff,
    sub_word-add_word (get m this) (d * size) (IsWord-get m this),
  )

-- On every pair of objects exactly one of `<`, `==` and `>` holds, `!=`, `<=` and `>=` are their
-- negations, and `<` is transitive: the order is that of the addresses, not of the offsets.
pub order_laws :
    (m : Offsets) (a b c : Ptr)
    → (ne m a b ≡ not (eq m a b))
      × (le m a b ≡ not (gt m a b))
      × (ge m a b ≡ not (lt m a b))
      × ((lt m a b ≡ true) → (eq m a b ≡ false) × (gt m a b ≡ false))
      × ((lt m a b ≡ true) → (lt m b c ≡ true) → lt m a c ≡ true)
      × ((eq m a b ≡ true) → get m a ≡ get m b)
unfolding ne eq lt le gt ge
order_laws m a b c = (
  refl,
  ground arith,
  ground arith,
  (λ h. (ground arith, ground arith)),
  (λ h k. ground arith),
  λ h. ground arith,
)
