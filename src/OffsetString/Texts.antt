-- ===== src/OffsetString/Texts.antt =====
-- Texts and the buffers that they are in: what allocating and copying does to them.
use procshared_mem.Base.{
  ℕ, ◌+◌, ◌-◌, ◌<◌, ◌≡◌, ◌≢◌, refl, ap, ◌∙◌, Bool, false, not, ◌&&◌, some, ◌==◌, leb, if◌then◌else◌,
  ◌⊎◌, inl, inr, Bool-cases, arith,
}
use procshared_mem.OffsetString.Buffers.{outers}
use procshared_mem.OffsetString.{
  State, show_soo, show_outer, deallocate_outer_buffer, set_outer_buffer, allocate_outer_buffer,
  copy_soo, zeros, memcpy,
}
use procshared_mem.OffsetString.Counting.{text}

-- The text of a string is in its outer buffer, or in its small one where it has none.
abbrev pub Shown : State → ℕ → Type 0
Shown st i = (st.strs i).op_string ≡ (if outers st i == 0 then st.soo_buff i else outers st i)

abbrev pub room : State → ℕ → ℕ
room st i = if outers st i == 0 then st.soo_size else (st.strs i).outer_size

-- The small buffer of `this`, its outer one and the one that it gets at `p` do not meet the text of `str`.
abbrev pub Apart : State → (this str p : ℕ) → Type 0
Apart st this str p =
    (j k : ℕ)
    → j < room st str
    → k < room st str
    → (st.soo_buff this + j ≢ (st.strs str).op_string + k)
      × (p + j ≢ (st.strs str).op_string + k)
      × (outers st this ≢ 0 → outers st this + j ≢ (st.strs str).op_string + k)

-- What a call leaves of a string that is its source.
abbrev pub Kept : State → State → ℕ → Type 0
Kept st st' str = (i : ℕ) → i < room st str → text st' str i ≡ text st str i

-- The string shows the text of its source, which is left as it was.
abbrev pub SameText : State → State → (this str : ℕ) → Type 0
SameText st st' this str =
    Shown st' this × ((i : ℕ) → i < room st str → text st' this i ≡ text st str i) × Kept st st' str

pub memcpy-at : (f : ℕ → ℕ) (dst src n i : ℕ) → i < n → memcpy f dst src n (dst + i) ≡ f (src + i)
memcpy-at f dst src n i h = ground arith

pub memcpy-away :
    (f : ℕ → ℕ) (dst src n a : ℕ) → ((j : ℕ) → j < n → dst + j ≢ a) → memcpy f dst src n a ≡ f a
memcpy-away f dst src n a away = ground (arith, away (a - dst))

pub zeros-away : (f : ℕ → ℕ) (dst n a : ℕ) → ((j : ℕ) → j < n → dst + j ≢ a) → zeros f dst n a ≡ f a
zeros-away f dst n a away = ground (arith, away (a - dst))

-- Another string, and the characters, stay what they are when `this` gives its buffer back.
pub deallocate-other :
    (st : State) (this str : ℕ)
    → this ≢ str
    → ((deallocate_outer_buffer st this).strs str ≡ st.strs str)
      × ((a : ℕ) → (deallocate_outer_buffer st this).chars a ≡ st.chars a)
      × ((deallocate_outer_buffer st this).soo_size ≡ st.soo_size)
      × ((i : ℕ) → (deallocate_outer_buffer st this).soo_buff i ≡ st.soo_buff i)
unfolding deallocate_outer_buffer
deallocate-other st this str ne =
    let d : (str == this) ≡ false = ground (arith, ne) in
    elim (Bool-cases (outers st this == 0)) [
      | inl e ↦ rw e (refl, λ a. refl, refl, λ i. refl)
      | inr e ↦ rw (e, d) (refl, λ a. refl, refl, λ i. refl)
    ]

-- What `allocate_outer_buffer` has done where it gets a buffer at `p`.
abbrev pub Got : State → State × Bool → (this str k p : ℕ) → Type 0
Got st r this str k p =
    (r.1 ≡ false)
    × (outers r.0 this ≢ 0)
    × ((outers r.0 this ≡ outers st this) ⊎ (outers r.0 this ≡ p))
    × (r.0.strs str ≡ st.strs str)
    × ((a : ℕ) → ((j : ℕ) → j < k → p + j ≢ a) → r.0.chars a ≡ st.chars a)

pub outers-set_outer_buffer :
    (st : State) (this k p : ℕ) → p ≢ 0 → outers (set_outer_buffer st this k p) this ≡ p
unfolding set_outer_buffer
outers-set_outer_buffer st this k p hp = ground (arith, hp)

pub set_outer_buffer-Got :
    (st : State) (this str k p : ℕ)
    → this ≢ str
    → p ≢ 0
    → Got st (set_outer_buffer st this k p, false) this str k p
unfolding set_outer_buffer
set_outer_buffer-Got st this str k p ne hp =
    let d : (str == this) ≡ false = ground (arith, ne) in
    let e : (p == 0) ≡ false = ground (arith, hp) in
    rw (e, d)
      (
        refl,
        λ z. ground (arith, z, hp),
        inr (ground arith),
        refl,
        λ a away. zeros-away st.chars p k a away,
      )

pub allocate-Got :
    (st : State) (this str k p : ℕ)
    → this ≢ str
    → p ≢ 0
    → Got st (allocate_outer_buffer st this k (some p)) this str k p
unfolding allocate_outer_buffer
allocate-Got st this str k p ne hp =
    elim (Bool-cases (not (outers st this == 0) && leb k (st.strs this).outer_size)) [
      | inl e ↦
          rw (e, allocate_outer_buffer)
            (refl, λ z. ground (arith, e, z), inl refl, refl, λ a away. refl)
      | inr e ↦
          let g = set_outer_buffer-Got (deallocate_outer_buffer st this) this str k p ne hp in
          let o = deallocate-other st this str ne in
          rw (e, allocate_outer_buffer)
            (
              refl,
              g.1,
              inr (outers-set_outer_buffer (deallocate_outer_buffer st this) this k p hp),
              g.3 ∙ o.0,
              λ a away. g.4 a away ∙ o.1 a,
            )
    ]

unfoldable pub outer_copied : State → (this str : ℕ) → State
unfolding show_outer
outer_copied g this str =
    let chars = memcpy g.chars (outers g this) (outers g str) (g.strs str).outer_size in
    show_outer (record g { chars = chars }) this

module _ (st g : State) (this str : ℕ) where
  pub copy_soo-SameText :
      this ≢ str
      → outers st str ≡ 0
      → Shown st str
      → outers g this ≡ 0
      → g.strs str ≡ st.strs str
      → ((a : ℕ) → g.chars a ≡ st.chars a)
      → g.soo_size ≡ st.soo_size
      → ((i : ℕ) → g.soo_buff i ≡ st.soo_buff i)
      → ((j k : ℕ) → j < st.soo_size → k < st.soo_size → st.soo_buff this + j ≢ st.soo_buff str + k)
      → SameText st (copy_soo g this str) this str
  unfolding copy_soo show_soo
  copy_soo-SameText ne z shown e es c n b apart =
      let chars = memcpy g.chars (g.soo_buff this) (g.soo_buff str) g.soo_size in
      let at_this : ((copy_soo g this str).strs this).op_string ≡ g.soo_buff this = ground arith in
      let at_str : ((copy_soo g this str).strs str).op_string ≡ (st.strs str).op_string =
        ground (arith, ne, es) in
      let source : (st.strs str).op_string ≡ g.soo_buff str = ground (arith, shown, z, b str) in
      let old : (i : ℕ) → g.chars (g.soo_buff str + i) ≡ text st str i =
        λ i. rw (text, source) (c (g.soo_buff str + i)) in
      (
        ground (arith, e),
        λ i h.
            ap (λ a. chars (a + i)) at_this
            ∙ memcpy-at g.chars (g.soo_buff this) (g.soo_buff str) g.soo_size i
                (ground (arith, h, z, n))
            ∙ old i,
        λ i h.
            ap (λ a. chars (a + i)) (at_str ∙ source)
            ∙ memcpy-away g.chars (g.soo_buff this) (g.soo_buff str) g.soo_size (g.soo_buff str + i)
                (λ j hj. ground (arith, z, n, h, b this, b str, apart j i (ground arith)))
            ∙ old i,
      )

  pub copy_outer-SameText :
      this ≢ str
      → outers st str ≢ 0
      → Shown st str
      → outers g this ≢ 0
      → g.strs str ≡ st.strs str
      → ((i : ℕ) → i < (st.strs str).outer_size → g.chars (outers st str + i) ≡ text st str i)
      → ((j k : ℕ)
          → j < (st.strs str).outer_size
          → k < (st.strs str).outer_size
          → outers g this + j ≢ outers st str + k)
      → SameText st (outer_copied g this str) this str
  unfolding show_outer outer_copied
  copy_outer-SameText ne z shown e es old apart =
      let k = (g.strs str).outer_size in
      let size : k ≡ (st.strs str).outer_size = ap (λ x. x.outer_size) es in
      let buffer : outers g str ≡ outers st str = ap (λ x. x.outer_buffer) es in
      let chars = memcpy g.chars (outers g this) (outers g str) k in
      let at_this : ((outer_copied g this str).strs this).op_string ≡ outers g this =
        ground arith in
      let at_str : ((outer_copied g this str).strs str).op_string ≡ outers st str =
        ground (arith, ne, shown, z, ap (λ x. x.op_string) es) in
      (
        ground (arith, e),
        λ i h.
            ap (λ a. chars (a + i)) at_this
            ∙ memcpy-at g.chars (outers g this) (outers g str) k i (ground (arith, h, z, size))
            ∙ ap (λ a. g.chars (a + i)) buffer
            ∙ old i (ground (arith, h, z)),
        λ i h.
            ap (λ a. chars (a + i)) at_str
            ∙ memcpy-away g.chars (outers g this) (outers g str) k (outers st str + i)
                (λ j hj. apart j i (ground (arith, size, hj)) (ground (arith, h, z)))
            ∙ old i (ground (arith, h, z)),
      )
