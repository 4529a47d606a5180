-- ===== src/OffsetString/Dangling.antt =====
-- An assignment whose allocator throws, after the old outer buffer was given back.
use procshared_mem.Base.{
  ℕ, ◌<◌, ◌≡◌, ◌≢◌, refl, sym, ap, ◌∙◌, Bool, true, false, not, ◌&&◌, none, ◌==◌, leb, arith,
}
use procshared_mem.OffsetString.Buffers.{outers}
use procshared_mem.OffsetString.Copies.{propagate_alloc-other}
use procshared_mem.OffsetString.Texts.{Shown}
use procshared_mem.OffsetString.{
  State, throws, deallocate_outer_buffer, allocate_outer_buffer, copy_outer, propagate_alloc,
  copy_buffers, copy_assign,
}

-- The text of a string is in a buffer that it has given back at `p`.
abbrev pub Dangling : State → (this p : ℕ) → Type 0
Dangling st this p = ((st.strs this).op_string ≡ p) × (st.taken p ≡ false) × (outers st this ≡ 0)

deallocate-Dangling :
    (st : State) (this : ℕ)
    → Shown st this
    → outers st this ≢ 0
    → Dangling (deallocate_outer_buffer st this) this (outers st this)
unfolding deallocate_outer_buffer
deallocate-Dangling st this shown ne =
    let d : (outers st this == 0) ≡ false = ground (arith, ne) in
    rw d (ground (arith, shown, ne), ground arith, ground arith)

-- Giving back what is not there any more changes nothing.
deallocate-nothing :
    (st : State) (this : ℕ) → outers st this ≡ 0 → deallocate_outer_buffer st this ≡ st
unfolding deallocate_outer_buffer
deallocate-nothing st this e =
    let d : (outers st this == 0) ≡ true = ground (arith, e) in rw (d, deallocate_outer_buffer) refl

copy_buffers-throws :
    (st : State) (this str : ℕ)
    → outers st str ≢ 0
    → (not (outers st this == 0) && leb (st.strs str).outer_size (st.strs this).outer_size) ≡ false
    → copy_buffers st this str none ≡ throws (deallocate_outer_buffer st this)
unfolding copy_buffers allocate_outer_buffer copy_outer
copy_buffers-throws st this str ne e =
    let d : (outers st str == 0) ≡ false = ground (arith, ne) in
    let k = (st.strs str).outer_size in
    let a : allocate_outer_buffer st this k none ≡ (deallocate_outer_buffer st this, true) =
      rw (e, allocate_outer_buffer) refl in
    rw (d, copy_buffers) (ap (λ r. copy_outer r this str) a)

propagate_alloc-Dangling :
    (st : State) (this str : ℕ)
    → Shown st this
    → outers st this ≢ 0
    → Dangling (propagate_alloc true st this str) this (outers st this)
unfolding propagate_alloc
propagate_alloc-Dangling st this str shown ne =
    let d = deallocate-Dangling st this shown ne in (ground (arith, d.0), d.1, ground (arith, d.2))

-- Copy assignment throws where the allocator does, if the outer buffer of the source does not fit into
-- the one of the string. The string has then given its own outer buffer back and still shows its text
-- there.
pub copy_assign-Dangling :
    (b : Bool) (st : State) (this str : ℕ)
    → this ≢ str
    → Shown st this
    → outers st this ≢ 0
    → outers st str ≢ 0
    → (st.strs this).outer_size < (st.strs str).outer_size
    → (st' : State) × (copy_assign b st this str none ≡ throws st')
      × Dangling st' this (outers st this)
unfolding copy_assign
copy_assign-Dangling false st this str ne shown hp hs small =
    let d : (this == str) ≡ false = ground (arith, ne) in
    (
      deallocate_outer_buffer st this,
      rw (d, copy_assign, propagate_alloc)
          (copy_buffers-throws st this str hs (ground (arith, small))),
      deallocate-Dangling st this shown hp,
    )
copy_assign-Dangling true st this str ne shown hp hs small =
    let d : (this == str) ≡ false = ground (arith, ne) in
    let base = propagate_alloc true st this str in
    let same = (propagate_alloc-other true st this str ne).0 in
    let g = propagate_alloc-Dangling st this str shown hp in
    (
      base,
      rw (d, copy_assign)
          (copy_buffers-throws base this str (λ z. hs (sym (ap (λ x. x.outer_buffer) same) ∙ z))
              (ground (arith, g.2))
            ∙ ap throws (deallocate-nothing base this g.2)),
      g,
    )
