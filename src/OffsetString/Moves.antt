-- ===== src/OffsetString/Moves.antt =====
-- Moves, assignments and swaps, and the constructor from a text: what they do to the outer buffers.
use procshared_mem.Base.{
  ℕ, ◌+◌, ◌-◌, ◌<◌, ◌≡◌, ◌≢◌, refl, Bool, true, false, ◌&&◌, Option, ◌==◌, ltb, leb, if◌then◌else◌,
  inl, inr, Bool-cases, arith,
}
use procshared_mem.OffsetString.Buffers
use procshared_mem.OffsetString.Buffers.{outers, Owned, OwnedResult, Fresh}
use procshared_mem.OffsetString.{
  State, Result, done, throws, fault, show_soo, show_outer, clear_soo, construct,
  deallocate_outer_buffer, allocate_outer_buffer, destroy, copy_soo, copy_outer, take_over,
  move_construct, propagate_alloc, copy_buffers, copy_assign, empty_source, move_assign, clear,
  swap_propagating,
}
use procshared_mem.OffsetString.Counting.{put_text}

module _ (n : ℕ) where
  Owned-if : (b : Bool) (x y : State) → Owned n x → Owned n y → Owned n (if b then x else y)
  Owned-if true x y o o' = o
  Owned-if false x y o o' = o'

  Owned-take_over :
      (st : State) (this str : ℕ)
      → this < n
      → str < n
      → this ≢ str
      → outers st this ≡ 0
      → Owned n st
      → Owned n (take_over st this str)
  unfolding take_over show_soo show_outer clear_soo
  Owned-take_over st this str h k ne e o =
      Buffers.Owned-swapped n st (take_over st this str) this str h k (ground (arith, ne))
        (ground (arith, ne, e)) (λ i ni nj. ground (arith, ni, nj)) (λ p. refl) o

  pub Owned-move_construct :
      (st : State) (this str : ℕ)
      → this < n
      → str < n
      → this ≢ str
      → outers st this ≡ 0
      → Owned n st
      → Owned n (move_construct st this str)
  unfolding move_construct construct
  Owned-move_construct st this str h k ne e o =
      let st0 = construct st this (st.strs str).alloc in
      let o0 = Buffers.Owned-construct n st this (st.strs str).alloc e o in
      let copied = Buffers.Owned-copy_soo n st0 this str o0 in
      elim (Bool-cases (outers st0 str == 0)) [
        | inl z ↦
            rw (z, move_construct)
              (Buffers.Owned-show_soo n (clear_soo (copy_soo st0 this str) str) str
                (Buffers.Owned-clear_soo n (copy_soo st0 this str) str copied))
        | inr z ↦ rw (z, move_construct) (Owned-take_over st0 this str h k ne (ground arith) o0)
      ]

  Owned-propagate_alloc :
      (b : Bool) (st : State) (this str : ℕ)
      → this < n
      → Owned n st
      → Owned n (propagate_alloc b st this str)
  unfolding propagate_alloc
  Owned-propagate_alloc false st this str h o = o
  Owned-propagate_alloc true st this str h o =
      let st' = deallocate_outer_buffer st this in
      Buffers.Owned-same n st' (propagate_alloc true st this str) (λ i. ground arith) (λ p. refl)
        (Buffers.Owned-deallocate n st this h o)

  OwnedResult-copy_buffers :
      (st : State) (this str : ℕ) (ans : Option ℕ)
      → this < n
      → Fresh st this ans
      → Owned n st
      → OwnedResult n (copy_buffers st this str ans)
  unfolding copy_buffers
  OwnedResult-copy_buffers st this str ans h f o =
      let k = (st.strs str).outer_size in
      let r = allocate_outer_buffer st this k ans in
      let gone = deallocate_outer_buffer st this in
      Buffers.OwnedResult-if n (outers st str == 0) (done (copy_soo gone this str))
        (copy_outer r this str)
        (Buffers.Owned-copy_soo n gone this str (Buffers.Owned-deallocate n st this h o))
        (Buffers.Owned-copy_outer n r this str (Buffers.Owned-allocate n st this k ans h f o))

  pub OwnedResult-copy_assign :
      (b : Bool) (st : State) (this str : ℕ) (ans : Option ℕ)
      → this < n
      → Fresh (propagate_alloc b st this str) this ans
      → Owned n st
      → OwnedResult n (copy_assign b st this str ans)
  unfolding copy_assign
  OwnedResult-copy_assign b st this str ans h f o =
      let st' = propagate_alloc b st this str in
      Buffers.OwnedResult-if n (this == str) (done st) (copy_buffers st' this str ans) o
        (OwnedResult-copy_buffers st' this str ans h f (Owned-propagate_alloc b st this str h o))

  OwnedResult-empty_source :
      (r : Result) (str : ℕ) → str < n → OwnedResult n r → OwnedResult n (empty_source r str)
  unfolding empty_source
  OwnedResult-empty_source (done st) str h o =
      let gone = deallocate_outer_buffer st str in
      Buffers.Owned-clear_soo n (show_soo gone str) str
        (Buffers.Owned-show_soo n gone str (Buffers.Owned-deallocate n st str h o))
  OwnedResult-empty_source (throws st) str h o = o
  OwnedResult-empty_source fault str h o = o

  pub OwnedResult-move_assign :
      (b : Bool) (st : State) (this str : ℕ) (ans : Option ℕ)
      → this < n
      → str < n
      → Fresh (propagate_alloc b st this str) this ans
      → Owned n st
      → OwnedResult n (move_assign b st this str ans)
  unfolding move_assign
  OwnedResult-move_assign b st this str ans h k f o =
      let st' = propagate_alloc b st this str in
      let r = copy_buffers st' this str ans in
      Buffers.OwnedResult-if n (this == str) (done st) (empty_source r str) o (
        OwnedResult-empty_source r str k
          (OwnedResult-copy_buffers st' this str ans h f (Owned-propagate_alloc b st this str h o)))

  pub Owned-destroy : (st : State) (this : ℕ) → this < n → Owned n st → Owned n (destroy st this)
  unfolding destroy
  Owned-destroy st this h o = Buffers.Owned-deallocate n st this h o

  pub Owned-clear : (st : State) (this : ℕ) → this < n → Owned n st → Owned n (clear st this)
  unfolding clear
  Owned-clear st this h o =
      Buffers.Owned-deallocate n (show_soo (clear_soo st this) this) this h
        (Buffers.Owned-show_soo n (clear_soo st this) this (Buffers.Owned-clear_soo n st this o))

  pub Owned-swap_propagating :
      (st : State) (this str : ℕ)
      → this < n
      → str < n
      → Owned n st
      → Owned n (swap_propagating st this str)
  unfolding swap_propagating
  Owned-swap_propagating st this str h k o = elim (Bool-cases (this == str)) [
    | inl e ↦ rw (e, swap_propagating) o
    | inr e ↦
        Buffers.Owned-swapped n st (swap_propagating st this str) this str h k (ground (arith, e))
          (ground (arith, e)) (λ i ne ne'. ground (arith, e, ne, ne')) (λ p. ground (arith, e)) o
  ]

  pub OwnedResult-put_text :
      (st : State) (this : ℕ) (backup : ℕ → ℕ) (k : ℕ) (ans : Option ℕ)
      → this < n
      → Fresh st this ans
      → Owned n st
      → OwnedResult n (put_text st this backup k ans)
  unfolding put_text
  OwnedResult-put_text st this backup k ans h f o =
      let write =
        λ (p : ℕ) (f : ℕ → ℕ) (a : ℕ). if leb p a && ltb a (p + k) then backup (a - p) else f a in
      let r = allocate_outer_buffer st this k ans in
      let p = outers r.0 this in
      let o1 = Buffers.Owned-allocate n st this k ans h f o in
      let outer = record r.0 { chars = write p r.0.chars } in
      let small = record st { chars = write (st.soo_buff this) st.chars } in
      let shown = if p == 0 then fault else done (show_outer outer this) in
      Buffers.OwnedResult-if n (ltb st.soo_size k) (if r.1 then throws r.0 else shown)
        (done (show_soo small this))
        (Buffers.OwnedResult-if n r.1 (throws r.0) shown o1 (
          Buffers.OwnedResult-if n (p == 0) fault (done (show_outer outer this)) tt
            (Buffers.Owned-show_outer n outer this o1)))
        (Buffers.Owned-show_soo n small this o)

  pub OwnedResult-then :
      (r : Result) (f : State → Result)
      → OwnedResult n r
      → ((st : State) → r ≡ done st → Owned n st → OwnedResult n (f st))
      → OwnedResult n (elim r [ done st ↦ f st | r' ↦ r' ])
  OwnedResult-then (done st) f o g = g st refl o
  OwnedResult-then (throws st) f o g = o
  OwnedResult-then fault f o g = tt
