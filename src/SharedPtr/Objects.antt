-- ===== src/SharedPtr/Objects.antt =====
-- The objects `offset_shared_ptr` and `offset_weak_ptr` in memory, and their operations. An object
-- that is not constructed, or is destroyed, is a null handle, which is what the destructors write.
-- The temporary of `offset_shared_ptr( orig ).swap( *this )` is the value `r.1`; its destructor runs on
-- what the swap left in it.
use procshared_mem.Base.{ℕ}
use procshared_mem.Base.Tally.{update}
use procshared_mem.SharedPtr.{Heap, Handle, shrd, weak, try_dispose_com}

pub record State : Type 0 where
  pub heap : Heap
  pub shared : ℕ → Handle
  pub weaks : ℕ → Handle

-- What an object at `this` gets when a temporary is swapped in and the old content destroyed.
abbrev pub put_shared : State → ℕ → Heap × Handle → State
put_shared st this r = record st {
  heap = try_dispose_com r.0 (st.shared this).impl shrd;
  shared = update st.shared this r.1;
}

abbrev pub put_weak : State → ℕ → Heap × Handle → State
put_weak st this r = record st {
  heap = try_dispose_com r.0 (st.weaks this).impl weak;
  weaks = update st.weaks this r.1;
}
