-- ===== src/OffsetString/Copies.antt =====
-- Copy assignment: the text that it copies.
use procshared_mem.Base.{
  ℕ, ◌+◌, ◌<◌, ◌≡◌, ◌≢◌, refl, sym, ap, ◌∙◌, Bool, true, false, some, ◌==◌, if◌then◌else◌, inl, inr,
  Bool-cases, arith,
}
use procshared_mem.OffsetString.Buffers.{outers, outers-deallocate}
use procshared_mem.OffsetString.{
  State, done, deallocate_outer_buffer, allocate_outer_buffer, copy_soo, copy_outer,
  propagate_alloc, copy_buffers, copy_assign,
}
use procshared_mem.OffsetString.Counting.{text}
use procshared_mem.OffsetString.Texts.{
  Shown, room, Apart, SameText, deallocate-other, Got, allocate-Got, outer_copied,
  copy_soo-SameText, copy_outer-SameText,
}

copy_outer-done :
    (r : State × Bool) (this str : ℕ)
    → r.1 ≡ false
    → outers r.0 this ≢ 0
    → copy_outer r this str ≡ done (outer_copied r.0 this str)
unfolding copy_outer outer_copied
copy_outer-done (g, true) this str e ne = cc e
copy_outer-done (g, false) this str e ne =
    let d : (outers g this == 0) ≡ false = ground (arith, ne) in rw (d, copy_outer) refl

module _ (st : State) (this str p : ℕ) (ne : this ≢ str) (shown : Shown st str) where
  outer_copied-SameText :
      (r : State × Bool)
      → outers st str ≢ 0
      → Apart st this str p
      → Got st r this str (st.strs str).outer_size p
      → SameText st (outer_copied r.0 this str) this str
  outer_copied-SameText r z apart g =
      let k = (st.strs str).outer_size in
      let source : (st.strs str).op_string ≡ outers st str = ground (arith, shown, z) in
      let inside : (i : ℕ) → i < k → i < room st str = λ i h. ground (arith, z, h) in
      copy_outer-SameText st r.0 this str ne z shown g.1 g.3
        (λ i h.
          g.4 (outers st str + i)
            (λ j hj. ground (arith, source, (apart j i (inside j hj) (inside i h)).1))
          ∙ ap (λ a. st.chars (a + i)) (sym source))
        (λ j i hj hi.
          let away = apart j i (inside j hj) (inside i hi) in
          elim g.2 [
            | inl e ↦ ground (arith, source, e, away.2, g.1)
            | inr e ↦ ground (arith, source, e, away.1)
          ])

  copy_buffers-SameText :
      p ≢ 0
      → Apart st this str p
      → (st' : State) × (copy_buffers st this str (some p) ≡ done st') × SameText st st' this str
  unfolding copy_buffers
  copy_buffers-SameText hp apart = elim (Bool-cases (outers st str == 0)) [
    | inl z ↦
        let g = deallocate_outer_buffer st this in
        let o = deallocate-other st this str ne in
        (
          copy_soo g this str,
          rw (z, copy_buffers) refl,
          copy_soo-SameText st g this str ne (ground (arith, z)) shown (outers-deallocate st this)
              o.0 o.1 o.2 o.3
              (λ j k hj hk.
                ground
                  (arith, shown, z, (apart j k (ground (arith, z, hj)) (ground (arith, z, hk))).0)),
        )
    | inr z ↦
        let k = (st.strs str).outer_size in
        let r = allocate_outer_buffer st this k (some p) in
        let g = allocate-Got st this str k p ne hp in
        (
          outer_copied r.0 this str,
          rw (z, copy_buffers) (copy_outer-done r this str g.0 g.1),
          outer_copied-SameText r (ground (arith, z)) apart g,
        )
  ]

-- What the assignments find once the allocator was taken over.
pub propagate_alloc-other :
    (b : Bool) (st : State) (this str : ℕ)
    → this ≢ str
    → let base = propagate_alloc b st this str in
      (base.strs str ≡ st.strs str)
      × ((a : ℕ) → base.chars a ≡ st.chars a)
      × (base.soo_size ≡ st.soo_size)
      × ((i : ℕ) → base.soo_buff i ≡ st.soo_buff i)
      × (outers base this ≢ 0 → outers base this ≡ outers st this)
unfolding propagate_alloc
propagate_alloc-other false st this str ne = (refl, λ a. refl, refl, λ i. refl, λ z. refl)
propagate_alloc-other true st this str ne =
    let o = deallocate-other st this str ne in
    let d : (str == this) ≡ false = ground (arith, ne) in
    (rw d o.0, o.1, o.2, o.3, λ z. absurd (z (ground (arith, outers-deallocate st this))))

module _ (st base : State) (this str p : ℕ) where
  abbrev SameSource : Type 0
  SameSource =
      (base.strs str ≡ st.strs str)
      × ((a : ℕ) → base.chars a ≡ st.chars a)
      × (base.soo_size ≡ st.soo_size)
      × ((i : ℕ) → base.soo_buff i ≡ st.soo_buff i)
      × (outers base this ≢ 0 → outers base this ≡ outers st this)

  room-SameSource : SameSource → room base str ≡ room st str
  room-SameSource o =
      ap (λ x. if x.outer_buffer == 0 then base.soo_size else x.outer_size) o.0
      ∙ ap (λ n. if outers st str == 0 then n else (st.strs str).outer_size) o.2

  text-SameSource : SameSource → (i : ℕ) → text base str i ≡ text st str i
  text-SameSource o i = rw (text, o.0) (o.1 ((st.strs str).op_string + i))

  Shown-SameSource : SameSource → Shown st str → Shown base str
  Shown-SameSource o shown =
      let outer : outers base str ≡ outers st str = ap (λ x. x.outer_buffer) o.0 in
      let op : (base.strs str).op_string ≡ (st.strs str).op_string = ap (λ x. x.op_string) o.0 in
      ground (arith, outer, op, shown, o.3 str)

  Apart-SameSource : SameSource → Apart st this str p → Apart base this str p
  Apart-SameSource o apart j k hj hk =
      let size = room-SameSource o in
      let away = apart j k (ground (arith, size, hj)) (ground (arith, size, hk)) in
      let op : (base.strs str).op_string ≡ (st.strs str).op_string = ap (λ x. x.op_string) o.0 in
      rw (op, o.3 this) (away.0, away.1, λ z. rw (o.4 z) (away.2 (λ e. z (o.4 z ∙ e))))

  SameText-SameSource :
      (st' : State) → SameSource → SameText base st' this str → SameText st st' this str
  SameText-SameSource st' o c =
      let inside : (i : ℕ) → i < room st str → i < room base str =
        λ i h. rw (room-SameSource o) h in
      (
        c.0,
        λ i h. c.1 i (inside i h) ∙ text-SameSource o i,
        λ i h. c.2 i (inside i h) ∙ text-SameSource o i,
      )

-- Copy assignment from another string returns where the allocator has a buffer, and leaves the string
-- showing the text of the source, in a buffer of its own, and the source as it was. The source shows its
-- text where `op_string_` should point, and the buffers of the two do not meet it.
pub copy_assign-SameText :
    (b : Bool) (st : State) (this str p : ℕ)
    → this ≢ str
    → Shown st str
    → p ≢ 0
    → Apart st this str p
    → (st' : State) × (copy_assign b st this str (some p) ≡ done st') × SameText st st' this str
unfolding copy_assign
copy_assign-SameText b st this str p ne shown hp apart =
    let base = propagate_alloc b st this str in
    let o = propagate_alloc-other b st this str ne in
    let d : (this == str) ≡ false = ground (arith, ne) in
    let r =
      copy_buffers-SameText base this str p ne (Shown-SameSource st base this str p o shown) hp
        (Apart-SameSource st base this str p o apart) in
    (r.0, rw (d, copy_assign) r.1, SameText-SameSource st base this str p r.0 o r.2)
