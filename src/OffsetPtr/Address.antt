-- ===== src/OffsetPtr/Address.antt =====
-- The address that an `offset_ptr` stands for: what is stored comes back, and the address moves with
-- the mapping.
use procshared_mem.Base.{◌≡◌, ◌≢◌, refl, ◌==◌, if◌then◌else◌, arith}
use procshared_mem.Base.Word.{IsWord, add_word}
use procshared_mem.OffsetPtr.{Ptr, null, Offsets, calc_offset, calc_address, get, construct}

-- The address comes back from the offset, but for the object's own address, which reads as null.
pub calc_address-calc_offset :
    (this p : Ptr)
    → IsWord this
    → IsWord p
    → calc_address this (calc_offset this p) ≡ (if p == this then null else p)
unfolding calc_address calc_offset
calc_address-calc_offset this p hthis hp = ground arith

-- An object built from a pointer `p` other than its own address gives `p` back, null included, and
-- no other object changes; an object built from its own address reads as null.
pub get-construct :
    (m : Offsets) (this p : Ptr)
    → IsWord this
    → IsWord p
    → (get (construct m this p) this ≡ (if p == this then null else p))
      × ((a : Ptr) → a ≢ this → construct m this p a ≡ m a)
unfolding get construct
get-construct m this p hthis hp =
    (ground (arith, calc_address-calc_offset this p hthis hp), λ a ne. ground arith)

-- Where a region is mapped at another place, `delta` further on modulo 2 ^ 64, an object in it with
-- the same stored offset stands for the same place of the region; null stays null.
pub calc_address-moved :
    (this p delta : Ptr)
    → IsWord this
    → IsWord p
    → IsWord delta
    → p ≢ this
    → calc_address (add_word this delta) (calc_offset this p)
      ≡ (if p == null then null else add_word p delta)
unfolding calc_address calc_offset
calc_address-moved this p delta hthis hp hd ne = ground arith

pub IsWord-get : (m : Offsets) (this : Ptr) → IsWord (get m this)
unfolding get calc_address
IsWord-get m this = ground arith

pub calc_address-null : (this : Ptr) → calc_address this 0 ≡ null
unfolding calc_address
calc_address-null this = refl

-- An object whose offset is a word never stands for its own address.
pub get-ne_self :
    (m : Offsets) (this : Ptr)
    → IsWord this
    → IsWord (m this)
    → get m this ≡ this
    → get m this ≡ null
unfolding get calc_address
get-ne_self m this hthis hoff e = ground arith
