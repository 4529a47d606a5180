-- ===== src/SharedPtr/Shared.antt =====
-- The operations of an `offset_shared_ptr` object at an index.
use procshared_mem.Base.{ℕ, Option, none, some, ◌==◌, if◌then◌else◌}
use procshared_mem.Base.Tally.{update}
use procshared_mem.SharedPtr.{
  null_handle, shrd, try_dispose_com, copy_shared, shared_of_weak, make_shared, Construction,
}
use procshared_mem.SharedPtr.Objects.{State, put_shared}

unfoldable pub destroy : State → ℕ → State
destroy st this = record st {
  heap = try_dispose_com st.heap (st.shared this).impl shrd;
  shared = update st.shared this null_handle;
}

unfoldable pub copy_construct : State → ℕ → ℕ → State
copy_construct st this orig =
    let r = copy_shared st.heap (st.shared orig) in
    record st { heap = r.0; shared = update st.shared this r.1 }

unfoldable pub move_construct : State → ℕ → ℕ → State
move_construct st this orig =
    if (st.shared orig).impl == 0
    then record st { shared = update st.shared this null_handle }
    else record st { shared = update (update st.shared this (st.shared orig)) orig null_handle }

unfoldable pub from_weak : State → ℕ → ℕ → Option State
from_weak st this orig = elim (shared_of_weak st.heap (st.weaks orig)) [
  | none ↦ none
  | some r ↦ some (record st { heap = r.0; shared = update st.shared this r.1 })
]

unfoldable pub copy_assign : State → ℕ → ℕ → State
copy_assign st this orig =
    if this == orig
    then st
    else if (st.shared this).impl == (st.shared orig).impl
    then st
    else put_shared st this (copy_shared st.heap (st.shared orig))

-- The temporary is move constructed, which leaves `orig` null unless it has no control block.
unfoldable pub move_assign : State → ℕ → ℕ → State
move_assign st this orig =
    if this == orig
    then st
    else if (st.shared this).impl == (st.shared orig).impl
    then st
    else if (st.shared orig).impl == 0
    then put_shared st this (st.heap, null_handle)
    else put_shared (record st { shared = update st.shared orig null_handle }) this
        (st.heap, st.shared orig)

unfoldable pub swap : State → ℕ → ℕ → State
swap st this b =
    if this == b
    then st
    else record st { shared = update (update st.shared this (st.shared b)) b (st.shared this) }

unfoldable pub reset : State → ℕ → State
reset st this = put_shared st this (st.heap, null_handle)

unfoldable pub reset_to : State → ℕ → Option ℕ → Construction → ℕ → State
reset_to st this cb ends p =
    let r = make_shared st.heap cb ends p in
    elim r.1 [ none ↦ record st { heap = r.0 } | some a ↦ put_shared st this (r.0, a) ]

-- `offset_shared_ptr( Y*, D, Alloc )` as the object `this`.
unfoldable pub construct : State → ℕ → Option ℕ → Construction → ℕ → State
construct st this cb ends p =
    let r = make_shared st.heap cb ends p in
    elim r.1 [
      | none ↦ record st { heap = r.0 }
      | some a ↦ record st { heap = r.0; shared = update st.shared this a }
    ]
