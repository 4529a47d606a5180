-- ===== src/OffsetMalloc/Binds.antt =====
-- The bind counts against the handles.
use procshared_mem.Base.{ℕ, ◌+◌, ◌^◌, ◌<◌, ◌≡◌, ◌≢◌, ◌==◌, if◌then◌else◌, arith}
use procshared_mem.Base.Tally.{update, one, tally, tally-change, tally-le, tally-pos}
use procshared_mem.OffsetMalloc.{
  State, bind, unbind, destroy, copy_construct, move_construct, attach, copy_assign, move_assign,
  swap, place, get_bind_count,
}

-- Every allocator's count is the number of handles on it among the first `n`.
abbrev pub Bound : ℕ → State → Type 0
Bound n st = (a : ℕ) → a ≢ 0 → st.bind_cnt a ≡ tally st.p_impl n a

-- What a handle does, with `n` handles in memory. A constructor runs where no handle is.
pub data Step (n : ℕ) (st : State) : State → Type 0 where
  destroys : (this : ℕ) → this < n → Step n st (destroy st this)
  copies :
      (this src : ℕ)
      → this < n
      → src < n
      → st.p_impl this ≡ 0
      → Step n st (copy_construct st this src)
  moves :
      (this src : ℕ)
      → this < n
      → src < n
      → st.p_impl this ≡ 0
      → Step n st (move_construct st this src)
  attaches : (this p : ℕ) → this < n → st.p_impl this ≡ 0 → Step n st (attach st this p)
  copy_assigns : (this src : ℕ) → this < n → src < n → Step n st (copy_assign st this src)
  move_assigns : (this src : ℕ) → this < n → src < n → Step n st (move_assign st this src)
  places :
      (this p : ℕ)
      → this < n
      → st.p_impl this ≡ 0
      → tally st.p_impl n p ≡ 0
      → Step n st (place st this p)
  swaps : (this src : ℕ) → this < n → src < n → Step n st (swap st this src)

tally-update :
    (f : ℕ → ℕ) (n a x c : ℕ)
    → a < n
    → tally (update f a x) n c + one (f a) c ≡ tally f n c + one x c
tally-update f n a x c h =
    ground (arith, tally-change f (update f a x) n a c h (λ b ne. ground arith))

module _ (n : ℕ) (small : n + 1 < 2 ^ 31) (st : State) (good : Bound n st) where
  Bound-destroy : (this : ℕ) → this < n → Bound n (destroy st this)
  unfolding destroy unbind
  Bound-destroy this h a ha = ground (
    arith,
    good a ha,
    tally-update st.p_impl n this 0 a h,
    tally-le st.p_impl n a,
    tally-pos st.p_impl n this h,
  )

  Bound-copy_construct :
      (this src : ℕ)
      → this < n
      → src < n
      → st.p_impl this ≡ 0
      → Bound n (copy_construct st this src)
  unfolding copy_construct bind
  Bound-copy_construct this src h k e a ha = ground (
    arith,
    good a ha,
    tally-update st.p_impl n this (st.p_impl src) a h,
    tally-le st.p_impl n a,
    e,
  )

  Bound-attach : (this p : ℕ) → this < n → st.p_impl this ≡ 0 → Bound n (attach st this p)
  unfolding attach bind
  Bound-attach this p h e a ha =
      ground (arith, good a ha, tally-update st.p_impl n this p a h, tally-le st.p_impl n a, e)

  -- A new allocator, on which no handle is.
  Bound-place :
      (this p : ℕ)
      → this < n
      → st.p_impl this ≡ 0
      → tally st.p_impl n p ≡ 0
      → Bound n (place st this p)
  unfolding place
  Bound-place this p h e none_yet a ha =
      ground (arith, good a ha, tally-update st.p_impl n this p a h, e, none_yet)

  Bound-move_construct :
      (this src : ℕ)
      → this < n
      → src < n
      → st.p_impl this ≡ 0
      → Bound n (move_construct st this src)
  unfolding move_construct
  Bound-move_construct this src h k e a ha = ground (
    arith,
    good a ha,
    tally-update st.p_impl n this (st.p_impl src) a h,
    tally-update (update st.p_impl this (st.p_impl src)) n src 0 a k,
    e,
  )

  Bound-swap : (this src : ℕ) → this < n → src < n → Bound n (swap st this src)
  unfolding swap
  Bound-swap this src h k a ha = ground (
    arith,
    good a ha,
    tally-update st.p_impl n this (st.p_impl src) a h,
    tally-update (update st.p_impl this (st.p_impl src)) n src (st.p_impl this) a k,
  )

  Bound-copy_assign : (this src : ℕ) → this < n → src < n → Bound n (copy_assign st this src)
  unfolding copy_assign bind unbind
  Bound-copy_assign this src h k a ha = ground (
    arith,
    good a ha,
    tally-update st.p_impl n this (st.p_impl src) a h,
    tally-le st.p_impl n a,
    tally-pos st.p_impl n this h,
  )

  Bound-move_assign : (this src : ℕ) → this < n → src < n → Bound n (move_assign st this src)
  unfolding move_assign unbind
  Bound-move_assign this src h k a ha = ground (
    arith,
    good a ha,
    tally-update st.p_impl n this (st.p_impl src) a h,
    tally-le st.p_impl n a,
    tally-update (update st.p_impl this (st.p_impl src)) n src 0 a k,
    tally-update st.p_impl n src 0 a k,
    tally-pos st.p_impl n this h,
    tally-pos st.p_impl n src k,
  )

-- Every operation of the handles keeps the bind count of each allocator equal to the number of handles
-- on it; so `get_bind_count` answers that number, and 0 for a null handle.
pub Bound-Step :
    (n : ℕ) (st st' : State)
    → n + 1 < 2 ^ 31
    → Bound n st
    → Step n st st'
    → Bound n st'
      × ((this : ℕ)
          → get_bind_count st' this
            ≡ (if st'.p_impl this == 0 then 0 else tally st'.p_impl n (st'.p_impl this)))
unfolding get_bind_count
Bound-Step n st st' small good step =
    let b = after n st st' small good step in (b, λ this. ground (arith, b (st'.p_impl this)))
  where
    after : (n : ℕ) (st st' : State) → n + 1 < 2 ^ 31 → Bound n st → Step n st st' → Bound n st'
    after n st _ s g (destroys this h) = Bound-destroy n s st g this h
    after n st _ s g (copies this src h k e) = Bound-copy_construct n s st g this src h k e
    after n st _ s g (moves this src h k e) = Bound-move_construct n s st g this src h k e
    after n st _ s g (attaches this p h e) = Bound-attach n s st g this p h e
    after n st _ s g (copy_assigns this src h k) = Bound-copy_assign n s st g this src h k
    after n st _ s g (move_assigns this src h k) = Bound-move_assign n s st g this src h k
    after n st _ s g (places this p h e z) = Bound-place n s st g this p h e z
    after n st _ s g (swaps this src h k) = Bound-swap n s st g this src h k
