-- ===== src/OffsetMalloc/Tests.antt =====
-- A handle on the allocator at 4096, copied and moved.
use procshared_mem.Base.{ℕ, ◌≡◌, refl, ◌==◌, if◌then◌else◌, arith}
use procshared_mem.Base.Tally.{tally}
use procshared_mem.OffsetMalloc.{State, copy_construct, bind, get_bind_count}
use procshared_mem.OffsetMalloc.Binds.{Bound, Bound-Step, copies}

abbrev single : State
single = record {
  bind_cnt = λ a. if a == 4096 then 1 else 0;
  p_impl = λ i. if i == 0 then 4096 else 0;
}

single-Bound : Bound 2 single
unfolding tally
single-Bound a ha = ground (arith, ha)

Bound-Step_example :
    let st = copy_construct single 1 0 in
    Bound 2 st
    × ((this : ℕ)
        → get_bind_count st this
          ≡ (if st.p_impl this == 0 then 0 else tally st.p_impl 2 (st.p_impl this)))
Bound-Step_example =
    Bound-Step 2 single (copy_construct single 1 0) (omega arith) single-Bound
      (copies 1 0 (omega arith) (omega arith) refl)

copied_twice : get_bind_count (copy_construct single 1 0) 0 ≡ 2
unfolding get_bind_count copy_construct bind
copied_twice = refl
