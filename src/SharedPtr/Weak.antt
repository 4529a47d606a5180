-- ===== src/SharedPtr/Weak.antt =====
-- The operations of an `offset_weak_ptr` object at an index.
use procshared_mem.Base.{ℕ, ◌==◌, if◌then◌else◌}
use procshared_mem.Base.Tally.{update}
use procshared_mem.SharedPtr.{null_handle, weak, try_dispose_com, copy_weak, lock}
use procshared_mem.SharedPtr.Objects.{State, put_weak}

unfoldable pub destroy : State → ℕ → State
destroy st this = record st {
  heap = try_dispose_com st.heap (st.weaks this).impl weak;
  weaks = update st.weaks this null_handle;
}

unfoldable pub copy_construct : State → ℕ → ℕ → State
copy_construct st this r =
    let t = copy_weak st.heap (st.weaks r) in
    record st { heap = t.0; weaks = update st.weaks this t.1 }

unfoldable pub from_shared : State → ℕ → ℕ → State
from_shared st this r =
    let t = copy_weak st.heap (st.shared r) in
    record st { heap = t.0; weaks = update st.weaks this t.1 }

unfoldable pub move_construct : State → ℕ → ℕ → State
move_construct st this r = record st {
  weaks = update (update st.weaks this (st.weaks r)) r null_handle;
}

unfoldable pub copy_assign : State → ℕ → ℕ → State
copy_assign st this r =
    if this == r
    then st
    else if (st.weaks this).impl == (st.weaks r).impl
    then st
    else put_weak st this (copy_weak st.heap (st.weaks r))

unfoldable pub assign_shared : State → ℕ → ℕ → State
assign_shared st this r = put_weak st this (copy_weak st.heap (st.shared r))

unfoldable pub move_assign : State → ℕ → ℕ → State
move_assign st this r =
    if this == r
    then st
    else if (st.weaks this).impl == (st.weaks r).impl
    then st
    else put_weak (record st { weaks = update st.weaks r null_handle }) this (st.heap, st.weaks r)

unfoldable pub swap : State → ℕ → ℕ → State
swap st this r =
    if this == r
    then st
    else record st { weaks = update (update st.weaks this (st.weaks r)) r (st.weaks this) }

unfoldable pub reset : State → ℕ → State
reset st this = put_weak st this (st.heap, null_handle)

-- `auto x = w.lock()`: the answer becomes the object `this`.
unfoldable pub lock_into : State → ℕ → ℕ → State
lock_into st this w =
    let r = lock st.heap (st.weaks w) in
    record st { heap = r.0; shared = update st.shared this r.1 }
