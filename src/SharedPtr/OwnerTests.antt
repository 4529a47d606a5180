-- ===== src/SharedPtr/OwnerTests.antt =====
-- Resources that come to a shared object from a unique pointer and from `offset_malloc`.
use procshared_mem.Base.{◌≡◌, refl, false, none, some, [], ◌==◌, if◌then◌else◌, arith}
use procshared_mem.Base.Tally.{count}
use procshared_mem.UniquePtr
use procshared_mem.Typed.{Memory, Layout}
use procshared_mem.SharedPtr.{null_handle, constructed, threw_early}
use procshared_mem.SharedPtr.Objects.{State}
use procshared_mem.SharedPtr.Resource.{Held, Deleted}
use procshared_mem.SharedPtr.Convert.{from_unique, from_unique-Held}
use procshared_mem.SharedPtr.Factory.{
  allocate_shared_array, Restored, allocate_shared_array-Restored,
}

abbrev empty : State
empty = record {
  heap = record {
    ctrl = λ a. record { weak_refc = 0; shrd_refc = 0; op_to_obj = 0; live = false };
    deleted = [];
  };
  shared = λ a. null_handle;
  weaks = λ a. null_handle;
}

-- The unique pointer at 3 holds 7.
abbrev owner : UniquePtr.Memory
owner = record {
  objects = λ a. record { op_target = if a == 3 then 7 else 0; deleter = 1 };
  deleted = [];
}

from_unique-Held_example :
    let taken = from_unique empty owner 0 3 (some 64) constructed in
    let thrown = from_unique empty owner 0 3 (some 64) threw_early in
    let refused = from_unique empty owner 0 3 none constructed in
    (Held 7 64 taken.0.heap
      × ((taken.0.heap.ctrl 64).shrd_refc ≡ 1)
      × (taken.0.shared 0 ≡ record { impl = 64; ptr = 7 })
      × (UniquePtr.get taken.1 3 ≡ 0)
      × (taken.1.deleted ≡ []))
    × (Deleted 7 thrown.0.heap × (thrown.0.shared ≡ empty.shared) × (UniquePtr.get thrown.1 3 ≡ 0))
    × (Deleted 7 refused.0.heap
        × (refused.0.shared ≡ empty.shared)
        × (UniquePtr.get refused.1 3 ≡ 0))
unfolding UniquePtr.get count
from_unique-Held_example =
    from_unique-Held empty owner 0 3 64 7 (omega arith) refl (λ b. omega arith) refl

abbrev nothing_there : Memory
nothing_there = record { taken = λ a. false; word_at = λ a. 0; alive = λ a. false }

abbrev layout : Layout
layout = record { size = 24; align = 8 }

allocate_shared_array-Restored_example :
    Restored nothing_there
      (allocate_shared_array layout nothing_there empty 0 4096 (λ i. false) 4 none constructed).0
    × Restored nothing_there
        (allocate_shared_array layout nothing_there empty 0 4096
          (λ i. false)
          4
          (some 64)
          threw_early).0
allocate_shared_array-Restored_example =
    allocate_shared_array-Restored layout nothing_there empty 0 4096 4 64 (λ i. false) (omega arith)
      (omega arith) (omega arith) refl (λ i l. refl) (λ i l. refl)
