-- ===== src/OffsetString/Runs.antt =====
-- Programs that use strings: which outer buffers belong to whom after any calls.
use procshared_mem.Base.{
  ℕ, ◌+◌, ◌<◌, ◌≡◌, ◌≢◌, refl, sym, ◌∙◌, subst, Bool, Option, none, some, ◌==◌, leb, if◌then◌else◌,
  inl, inr, Bool-cases, Option-cases,
}
use mathlib.Core.Option.{some-injective}
use procshared_mem.OffsetString.Buffers
use procshared_mem.OffsetString.Buffers.{outers, Owned, OwnedResult, Fresh}
use procshared_mem.OffsetString.Moves
use procshared_mem.OffsetString.{
  State, Result, done, throws, show_outer, construct, allocate_outer_buffer, destroy,
  destroy_thrown, copy_construct, move_construct, propagate_alloc, copy_assign, move_assign, clear,
  swap_propagating, memcpy,
}
use procshared_mem.OffsetString.Counting.{
  size_loop, size, copy_text, construct_text, put_text, exchange_texts, swap_copying, put_first,
  text,
}

-- What an operation leaves: it has returned, or it has thrown.
pub data Leaves : Result → State → Type 0 where
  returned : (st : State) → Leaves (done st) st
  thrown : (st : State) → Leaves (throws st) st

-- One call on the first `n` strings. A constructor is for a string that has no outer buffer, as raw
-- memory and a destroyed string have none; what the allocator answers is not handed out already.
pub data Step (n : ℕ) : State → State → Type 0 where
  constructs :
      (st : State) (this a : ℕ) → this < n → outers st this ≡ 0 → Step n st (construct st this a)
  copies :
      (st st' : State) (this str a : ℕ) (ans : Option ℕ)
      → this < n
      → outers st this ≡ 0
      → Fresh (construct st this a) this ans
      → Leaves (copy_construct st this str a ans) st'
      → Step n st st'
  moves :
      (st : State) (this str : ℕ)
      → this < n
      → str < n
      → this ≢ str
      → outers st this ≡ 0
      → Step n st (move_construct st this str)
  reads_text :
      (st st' : State) (r : Result) (fuel this s a : ℕ) (ans : Option ℕ)
      → this < n
      → outers st this ≡ 0
      → Fresh (construct st this a) this ans
      → construct_text fuel st this s a ans ≡ some r
      → Leaves r st'
      → Step n st st'
  copy_assigns :
      (propagate : Bool) (st st' : State) (this str : ℕ) (ans : Option ℕ)
      → this < n
      → Fresh (propagate_alloc propagate st this str) this ans
      → Leaves (copy_assign propagate st this str ans) st'
      → Step n st st'
  move_assigns :
      (propagate : Bool) (st st' : State) (this str : ℕ) (ans : Option ℕ)
      → this < n
      → str < n
      → Fresh (propagate_alloc propagate st this str) this ans
      → Leaves (move_assign propagate st this str ans) st'
      → Step n st st'
  clears : (st : State) (this : ℕ) → this < n → Step n st (clear st this)
  swaps :
      (st : State) (this str : ℕ) → this < n → str < n → Step n st (swap_propagating st this str)
  copies_swapped :
      (st st' : State) (r : Result) (fuel this str : ℕ) (ans ans' : Option ℕ)
      → this < n
      → str < n
      → Fresh (clear (clear st this) str) this ans
      → ((m : ℕ) (mid : State) → put_first st this str m ans ≡ done mid → Fresh mid str ans')
      → swap_copying fuel st this str ans ans' ≡ some r
      → Leaves r st'
      → Step n st st'
  destroys : (st : State) (this : ℕ) → this < n → Step n st (destroy st this)

pub data Run (n : ℕ) : State → State → Type 0 where
  stay : (st : State) → Run n st st
  then_step : (st st' st'' : State) → Run n st st' → Step n st' st'' → Run n st st''

Owned-Leaves : (n : ℕ) → {r : Result} → {st : State} → Leaves r st → OwnedResult n r → Owned n st
Owned-Leaves n (returned st) o = o
Owned-Leaves n (thrown st) o = o

OwnedResult-copy_text :
    (n : ℕ) (st : State) (this s k : ℕ) (ans : Option ℕ)
    → this < n
    → Fresh st this ans
    → Owned n st
    → OwnedResult n (copy_text st this s k ans)
unfolding copy_text
OwnedResult-copy_text n st this s k ans h f o =
    let r = allocate_outer_buffer st this k ans in
    let p = outers r.0 this in
    let o1 = Buffers.Owned-allocate n st this k ans h f o in
    let filled = record r.0 { chars = memcpy r.0.chars p s k } in
    let left = if r.1 then throws r.0 else done (show_outer filled this) in
    let all = if p == 0 then throws r.0 else left in
    Buffers.OwnedResult-if n (leb k st.soo_size)
      (done (record st { chars = memcpy st.chars (st.soo_buff this) s k }))
      (destroy_thrown all this) o
      (Buffers.OwnedResult-destroy_thrown n all this h (
        Buffers.OwnedResult-if n (p == 0) (throws r.0) left o1 (
          Buffers.OwnedResult-if n r.1 (throws r.0) (done (show_outer filled this)) o1
            (Buffers.Owned-show_outer n filled this o1))))

OwnedResult-construct_text :
    (n fuel : ℕ) (st : State) (this s a : ℕ) (ans : Option ℕ) (r : Result)
    → this < n
    → outers st this ≡ 0
    → Fresh (construct st this a) this ans
    → construct_text fuel st this s a ans ≡ some r
    → Owned n st
    → OwnedResult n r
unfolding construct_text
OwnedResult-construct_text n fuel st this s a ans r h e f t o =
    let st0 = construct st this a in
    elim (Option-cases (size_loop fuel st0.chars s 0)) [
      | inl z ↦
          let q : construct_text fuel st this s a ans ≡ none = rw (z, construct_text) refl in
          cc (q, t)
      | inr (k, z) ↦
          let q : construct_text fuel st this s a ans ≡ some (copy_text st0 this s (k + 1) ans) =
            rw (z, construct_text) refl in
          subst (OwnedResult n) (some-injective _ _ (sym q ∙ t)) (
            OwnedResult-copy_text n st0 this s (k + 1) ans h f
              (Buffers.Owned-construct n st this a e o))
    ]

OwnedResult-exchange_texts :
    (n : ℕ) (st : State) (this str k l : ℕ) (ans ans' : Option ℕ)
    → this < n
    → str < n
    → Fresh (clear (clear st this) str) this ans
    → ((m : ℕ) (mid : State) → put_first st this str m ans ≡ done mid → Fresh mid str ans')
    → Owned n st
    → OwnedResult n (exchange_texts st this str k l ans ans')
unfolding exchange_texts put_first
OwnedResult-exchange_texts n st this str k l ans ans' h h' f f' o =
    let cleared = clear (clear st this) str in
    let o1 = Moves.Owned-clear n (clear st this) str h' (Moves.Owned-clear n st this h o) in
    Moves.OwnedResult-then n (put_first st this str l ans)
      (λ st'. put_text st' str (text st this) k ans')
      (Moves.OwnedResult-put_text n cleared this (text st str) l ans h f o1)
      (λ mid e o2. Moves.OwnedResult-put_text n mid str (text st this) k ans' h' (f' l mid e) o2)

OwnedResult-swap_copying :
    (n fuel : ℕ) (st : State) (this str : ℕ) (ans ans' : Option ℕ) (r : Result)
    → this < n
    → str < n
    → Fresh (clear (clear st this) str) this ans
    → ((m : ℕ) (mid : State) → put_first st this str m ans ≡ done mid → Fresh mid str ans')
    → swap_copying fuel st this str ans ans' ≡ some r
    → Owned n st
    → OwnedResult n r
unfolding swap_copying
OwnedResult-swap_copying n fuel st this str ans ans' r h h' f f' t o =
    elim (Bool-cases (this == str)) [
      | inl e ↦
          let q : swap_copying fuel st this str ans ans' ≡ some (done st) =
            rw (e, swap_copying) refl in
          subst (OwnedResult n) (some-injective _ _ (sym q ∙ t)) o
      | inr e ↦ elim (Option-cases (size fuel st this)) [
        | inl a ↦
            let q : swap_copying fuel st this str ans ans' ≡ none = rw (e, a, swap_copying) refl in
            cc (q, t)
        | inr (k, a) ↦ elim (Option-cases (size fuel st str)) [
          | inl b ↦
              let q : swap_copying fuel st this str ans ans' ≡ none =
                rw (e, a, b, swap_copying) refl in
              cc (q, t)
          | inr (l, b) ↦
              let q : swap_copying fuel st this str ans ans'
                  ≡ some (exchange_texts st this str (k + 1) (l + 1) ans ans') =
                rw (e, a, b, swap_copying) refl in
              subst (OwnedResult n) (some-injective _ _ (sym q ∙ t))
                (OwnedResult-exchange_texts n st this str (k + 1) (l + 1) ans ans' h h' f f' o)
        ]
      ]
    ]

Owned-Step : (n : ℕ) → {st st' : State} → Step n st st' → Owned n st → Owned n st'
Owned-Step n (constructs st this a h e) o = Buffers.Owned-construct n st this a e o
Owned-Step n (copies st st' this str a ans h e f l) o =
    Owned-Leaves n l (Buffers.OwnedResult-copy_construct n st this str a ans h e f o)
Owned-Step n (moves st this str h k ne e) o = Moves.Owned-move_construct n st this str h k ne e o
Owned-Step n (reads_text st st' r fuel this s a ans h e f t l) o =
    Owned-Leaves n l (OwnedResult-construct_text n fuel st this s a ans r h e f t o)
Owned-Step n (copy_assigns b st st' this str ans h f l) o =
    Owned-Leaves n l (Moves.OwnedResult-copy_assign n b st this str ans h f o)
Owned-Step n (move_assigns b st st' this str ans h k f l) o =
    Owned-Leaves n l (Moves.OwnedResult-move_assign n b st this str ans h k f o)
Owned-Step n (clears st this h) o = Moves.Owned-clear n st this h o
Owned-Step n (swaps st this str h k) o = Moves.Owned-swap_propagating n st this str h k o
Owned-Step n (copies_swapped st st' r fuel this str ans ans' h k f g t l) o =
    Owned-Leaves n l (OwnedResult-swap_copying n fuel st this str ans ans' r h k f g t o)
Owned-Step n (destroys st this h) o = Moves.Owned-destroy n st this h o

-- Through any calls, those that throw included, an outer buffer that the allocator has handed out
-- belongs to exactly one string and any other address to none: no buffer is leaked and none is given
-- back twice.
pub Owned-Run : (n : ℕ) → {st st' : State} → Run n st st' → Owned n st → Owned n st'
Owned-Run n (stay st) o = o
Owned-Run n (then_step st st' st'' run s) o = Owned-Step n s (Owned-Run n run o)
