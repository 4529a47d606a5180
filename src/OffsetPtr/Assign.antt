-- ===== src/OffsetPtr/Assign.antt =====
-- Copies, moves and swaps of `offset_ptr` objects at their own addresses.
use procshared_mem.Base.{◌≡◌, ◌≢◌, ◌==◌, if◌then◌else◌, arith}
use procshared_mem.Base.Word.{IsWord}
use procshared_mem.OffsetPtr.{
  Ptr, null, Offsets, write, get, copy_assign, move_construct, move_assign, swap,
}
use procshared_mem.OffsetPtr.Address.{calc_address-calc_offset, calc_address-null, IsWord-get}

-- What an object at `this` reads after it was given the address `p`.
abbrev pub seen_from : Ptr → Ptr → Ptr
seen_from this p = if p == this then null else p

module _ (m : Offsets) (this orig : Ptr) (hthis : IsWord this) where
  -- After a copy the target stands for the address that the source stood for (null where that is the
  -- target's own address), at whatever distance the two objects lie; a self copy changes nothing, and
  -- no object but the target changes.
  pub copy_assign-get :
      (get (copy_assign m this orig) this
        ≡ (if this == orig then get m this else seen_from this (get m orig)))
      × ((a : Ptr) → a ≢ this → copy_assign m this orig a ≡ m a)
  unfolding copy_assign get write
  copy_assign-get = (
    ground (arith, calc_address-calc_offset this (get m orig) hthis (IsWord-get m orig)),
    λ a ne. ground arith,
  )

  -- After a move the target stands for the source's address and the source is null; a self move
  -- changes nothing, and no third object changes.
  pub move_assign-get :
      (get (move_assign m this orig) this
        ≡ (if this == orig then get m this else seen_from this (get m orig)))
      × (get (move_assign m this orig) orig ≡ (if this == orig then get m this else null))
      × ((a : Ptr) → a ≢ this → a ≢ orig → move_assign m this orig a ≡ m a)
  unfolding move_assign get write
  move_assign-get = (
    ground (arith, calc_address-calc_offset this (get m orig) hthis (IsWord-get m orig)),
    ground (arith, calc_address-null orig),
    λ a ne ne'. ground arith,
  )

  -- A move construction leaves the new object with the source's address and the source null.
  pub move_construct-get :
      this ≢ orig
      → (get (move_construct m this orig) this ≡ seen_from this (get m orig))
        × (get (move_construct m this orig) orig ≡ null)
        × ((a : Ptr) → a ≢ this → a ≢ orig → move_construct m this orig a ≡ m a)
  unfolding move_construct get write
  move_construct-get ne = (
    ground (arith, calc_address-calc_offset this (get m orig) hthis (IsWord-get m orig)),
    ground (arith, calc_address-null orig),
    λ a ne ne'. ground arith,
  )

  -- `swap` exchanges the addresses that two objects stand for.
  pub swap-get :
      IsWord orig
      → (get (swap m this orig) this ≡ seen_from this (get m orig))
        × (get (swap m this orig) orig ≡ seen_from orig (get m this))
        × ((a : Ptr) → a ≢ this → a ≢ orig → swap m this orig a ≡ m a)
  unfolding swap get write
  swap-get horig = (
    ground (arith, calc_address-calc_offset this (get m orig) hthis (IsWord-get m orig)),
    ground (arith, calc_address-calc_offset orig (get m this) horig (IsWord-get m this)),
    λ a ne ne'. ground arith,
  )
