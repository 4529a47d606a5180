-- ===== src/OffsetString/Buffers.antt =====
-- The outer buffers: each one that the allocator has handed out belongs to one string.
use procshared_mem.Base.{
  ℕ, ◌+◌, ◌<◌, ◌≡◌, ◌≢◌, refl, ap, ◌∙◌, Bool, true, false, not, ◌&&◌, Option, some, ◌==◌, leb,
  if◌then◌else◌, inl, inr, Bool-cases, Option-cases, arith,
}
use procshared_mem.Base.Tally.{update, one, tally, tally-same, tally-change, tally-pos, tally-le}
use procshared_mem.OffsetString.{
  State, Result, done, throws, fault, show_soo, show_outer, clear_soo, construct,
  deallocate_outer_buffer, set_outer_buffer, allocate_outer_buffer, destroy, copy_soo, copy_outer,
  destroy_thrown, copy_construct, zeros, memcpy,
}

abbrev pub outers : State → ℕ → ℕ
outers st i = (st.strs i).outer_buffer

-- A buffer that is handed out is the outer buffer of one of the first `n` strings, and no other address
-- is one's.
abbrev pub Owned : ℕ → State → Type 0
Owned n st = (p : ℕ) → p ≢ 0 → tally (outers st) n p ≡ (if st.taken p then 1 else 0)

abbrev pub OwnedResult : ℕ → Result → Type 0
OwnedResult n (done st) = Owned n st
OwnedResult n (throws st) = Owned n st
OwnedResult n fault = Unit {0}

-- What is new for the strings once `this` has given its buffer back.
abbrev pub Fresh : State → ℕ → Option ℕ → Type 0
Fresh st this ans = (p : ℕ) → ans ≡ some p → (deallocate_outer_buffer st this).taken p ≡ false

pub outers-deallocate : (st : State) (this : ℕ) → outers (deallocate_outer_buffer st this) this ≡ 0
unfolding deallocate_outer_buffer
outers-deallocate st this = ground arith

module _ (n : ℕ) where
  pub Owned-same :
      (st st' : State)
      → ((i : ℕ) → outers st' i ≡ outers st i)
      → ((p : ℕ) → st'.taken p ≡ st.taken p)
      → Owned n st
      → Owned n st'
  Owned-same st st' e t o p hp =
      tally-same (outers st) (outers st') n p (λ b l. e b) ∙ o p hp ∙ rw (t p) refl

  -- One string changes its buffer.
  Owned-changed :
      (st st' : State) (this : ℕ)
      → this < n
      → ((i : ℕ) → i ≢ this → outers st' i ≡ outers st i)
      → ((p : ℕ)
          → p ≢ 0
          → (if st'.taken p then 1 else 0) + one (outers st this) p
            ≡ (if st.taken p then 1 else 0) + one (outers st' this) p)
      → Owned n st
      → Owned n st'
  Owned-changed st st' this h e t o p hp =
      omega (arith, tally-change (outers st) (outers st') n this p h e, t p hp, o p hp)

  pub Owned-deallocate :
      (st : State) (this : ℕ) → this < n → Owned n st → Owned n (deallocate_outer_buffer st this)
  unfolding deallocate_outer_buffer
  Owned-deallocate st this h o p hp = elim (Bool-cases (outers st this == 0)) [
    | inl e ↦ rw e (o p hp)
    | inr e ↦ rw e (
        Owned-changed st
          (record st {
            taken = update st.taken (outers st this) false;
            strs = update st.strs this (record (st.strs this) { outer_buffer = 0; outer_size = 0 });
          })
          this h (λ i ne. ground (arith, ne))
          (λ q hq.
            ground (arith, hq, o q hq, tally-pos (outers st) n this h, tally-le (outers st) n q))
          o p hp)
  ]

  Owned-set_outer_buffer :
      (st : State) (this k q : ℕ)
      → this < n
      → outers st this ≡ 0
      → st.taken q ≡ false
      → Owned n st
      → Owned n (set_outer_buffer st this k q)
  unfolding set_outer_buffer
  Owned-set_outer_buffer st this k q h e f o p hp = elim (Bool-cases (q == 0)) [
    | inl z ↦ rw z (o p hp)
    | inr z ↦ rw z (
        Owned-changed st
          (record st {
            taken = update st.taken q true;
            chars = zeros st.chars q k;
            strs = update st.strs this (record (st.strs this) { outer_buffer = q; outer_size = k });
          })
          this h (λ i ne. ground (arith, ne)) (λ r hr. ground (arith, hr, e, f)) o p hp)
  ]

  -- Two strings change their buffers with one another.
  pub Owned-swapped :
      (st st' : State) (this str : ℕ)
      → this < n
      → str < n
      → outers st' this ≡ outers st str
      → outers st' str ≡ outers st this
      → ((i : ℕ) → i ≢ this → i ≢ str → outers st' i ≡ outers st i)
      → ((p : ℕ) → st'.taken p ≡ st.taken p)
      → Owned n st
      → Owned n st'
  Owned-swapped st st' this str h k e e' other t o p hp =
      let f = update (outers st) this (outers st str) in
      let at_this : f this ≡ outers st str = ground arith in
      let at_str : f str ≡ outers st str = ground arith in
      omega (
        arith,
        tally-change (outers st) f n this p h (λ i ne. ground (arith, ne)),
        tally-change f (outers st') n str p k (λ i ne. ground (arith, ne, e, other i)),
        ap {B = ℕ} (λ x. one x p) at_this,
        ap {B = ℕ} (λ x. one x p) at_str,
        ap {B = ℕ} (λ x. one x p) e',
        o p hp,
        ap {B = ℕ} (λ b. if b then 1 else 0) (t p),
      )

  pub Owned-construct :
      (st : State) (this a : ℕ) → outers st this ≡ 0 → Owned n st → Owned n (construct st this a)
  unfolding construct
  Owned-construct st this a e o =
      Owned-same st (construct st this a) (λ i. ground (arith, e)) (λ p. refl) o

  pub Owned-show_soo : (st : State) (this : ℕ) → Owned n st → Owned n (show_soo st this)
  unfolding show_soo
  Owned-show_soo st this o = Owned-same st (show_soo st this) (λ i. ground arith) (λ p. refl) o

  pub Owned-show_outer : (st : State) (this : ℕ) → Owned n st → Owned n (show_outer st this)
  unfolding show_outer
  Owned-show_outer st this o = Owned-same st (show_outer st this) (λ i. ground arith) (λ p. refl) o

  pub Owned-clear_soo : (st : State) (this : ℕ) → Owned n st → Owned n (clear_soo st this)
  unfolding clear_soo
  Owned-clear_soo st this o = o

  pub Owned-copy_soo : (st : State) (this str : ℕ) → Owned n st → Owned n (copy_soo st this str)
  unfolding copy_soo
  Owned-copy_soo st this str o =
      Owned-show_soo
        (record st { chars = memcpy st.chars (st.soo_buff this) (st.soo_buff str) st.soo_size })
        this o

  pub Owned-allocate :
      (st : State) (this k : ℕ) (ans : Option ℕ)
      → this < n
      → Fresh st this ans
      → Owned n st
      → Owned n (allocate_outer_buffer st this k ans).0
  unfolding allocate_outer_buffer
  Owned-allocate st this k ans h f o =
      elim (Bool-cases (not (outers st this == 0) && leb k (st.strs this).outer_size)) [
        | inl e ↦ rw (e, allocate_outer_buffer) o
        | inr e ↦ elim (Option-cases ans) [
          | inl a ↦ rw (e, a, allocate_outer_buffer) (Owned-deallocate st this h o)
          | inr (p, a) ↦
              rw (e, a, allocate_outer_buffer)
                (Owned-set_outer_buffer (deallocate_outer_buffer st this) this k p h
                  (outers-deallocate st this) (f p a) (Owned-deallocate st this h o))
        ]
      ]

  pub OwnedResult-if :
      (b : Bool) (x y : Result)
      → OwnedResult n x
      → OwnedResult n y
      → OwnedResult n (if b then x else y)
  OwnedResult-if true x y o o' = o
  OwnedResult-if false x y o o' = o'

  pub Owned-copy_outer :
      (r : State × Bool) (this str : ℕ) → Owned n r.0 → OwnedResult n (copy_outer r this str)
  unfolding copy_outer
  Owned-copy_outer (st, true) this str o = o
  Owned-copy_outer (st, false) this str o =
      let p = outers st this in
      let copied = record st {
        chars = memcpy st.chars p (outers st str) (st.strs str).outer_size;
      } in
      OwnedResult-if (p == 0) fault (done (show_outer copied this)) tt
        (Owned-show_outer copied this o)

  pub OwnedResult-destroy_thrown :
      (r : Result) (this : ℕ) → this < n → OwnedResult n r → OwnedResult n (destroy_thrown r this)
  unfolding destroy_thrown destroy
  OwnedResult-destroy_thrown (done st) this h o = o
  OwnedResult-destroy_thrown (throws st) this h o = Owned-deallocate st this h o
  OwnedResult-destroy_thrown fault this h o = o

  pub OwnedResult-copy_construct :
      (st : State) (this str a : ℕ) (ans : Option ℕ)
      → this < n
      → outers st this ≡ 0
      → Fresh (construct st this a) this ans
      → Owned n st
      → OwnedResult n (copy_construct st this str a ans)
  unfolding copy_construct
  OwnedResult-copy_construct st this str a ans h e f o =
      let st0 = construct st this a in
      let o0 = Owned-construct st this a e o in
      let k = (st0.strs str).outer_size in
      let r = allocate_outer_buffer st0 this k ans in
      let o1 = Owned-allocate st0 this k ans h f o0 in
      let copied =
        if (r.0.strs this).outer_buffer == 0 then throws r.0 else copy_outer r this str in
      OwnedResult-if (outers st0 str == 0) (done (copy_soo st0 this str))
        (destroy_thrown copied this) (Owned-copy_soo st0 this str o0)
        (OwnedResult-destroy_thrown copied this h (
          OwnedResult-if ((r.0.strs this).outer_buffer == 0) (throws r.0) (copy_outer r this str) o1
            (Owned-copy_outer r this str o1)))
