-- ===== src/IpsmMalloc/Parts.antt =====
-- The three parts of each object belong to one memory.
use procshared_mem.Base.{
  ℕ, ◌≡◌, ◌≢◌, refl, Bool, true, false, Option, none, some, ◌==◌, if◌then◌else◌, inl, inr,
  Bool-cases, arith,
}
use procshared_mem.OffsetMalloc
use procshared_mem.ShmMem.Setup.{
  Header, Impl, Exit, goes_on, retries, throws_error, functor_throws, undefined, address_of, get,
  get_hint_value, move_mem, swap_mem,
}
use procshared_mem.Channels.{find_channels}
use procshared_mem.IpsmMalloc.{
  State, construct_default, construct, set_heap, find_parts, destroy, move_construct, swap,
  move_assign,
}

-- The handle is on the allocator of the object's own memory and the channels are where that memory
-- says; with no memory the handle is null.
abbrev pub Whole : (ℕ → Header) → Option Impl → ℕ → ℕ → Type 0
Whole hs none heap ch = heap ≡ 0
Whole hs (some x) heap ch =
    (heap ≡ get (some x))
    × (ch ≡ find_channels (get (some x)) (get_hint_value (some x) (hs (address_of (some x)))))

abbrev pub WholeAt : State → ℕ → Type 0
WholeAt st i = Whole st.headers (st.shm_obj i) (st.heaps.p_impl i) (st.p_msgch i)

abbrev pub AllWhole : State → Type 0
AllWhole st = (i : ℕ) → WholeAt st i

Whole-swap : (st : State) (this src : ℕ) → this ≢ src → AllWhole st → AllWhole (swap st this src)
unfolding swap swap_mem OffsetMalloc.swap
Whole-swap st this src ne w i =
    let d : (this == src) ≡ false = ground (arith, ne) in
    elim (Bool-cases (i == src)) [
      | inl e ↦ rw (d, e) (w this)
      | inr e ↦ elim (Bool-cases (i == this)) [
        | inl f ↦ rw (d, e, f) (w src)
        | inr f ↦ rw (d, e, f) (w i)
      ]
    ]

Whole-move_construct :
    (st : State) (this src : ℕ) → this ≢ src → AllWhole st → AllWhole (move_construct st this src)
unfolding move_construct move_mem OffsetMalloc.move_construct
Whole-move_construct st this src ne w i = elim (Bool-cases (i == src)) [
  | inl e ↦ rw e refl
  | inr e ↦ elim (Bool-cases (i == this)) [ inl f ↦ rw (e, f) (w src) | inr f ↦ rw (e, f) (w i) ]
]

Whole-destroy : (st : State) (this : ℕ) → AllWhole st → AllWhole (destroy st this)
unfolding destroy OffsetMalloc.destroy
Whole-destroy st this w i = elim (Bool-cases (i == this)) [ inl e ↦ rw e refl | inr e ↦ rw e (w i) ]

Whole-default : (st : State) (this : ℕ) → AllWhole st → AllWhole (construct_default st this)
unfolding construct_default
Whole-default st this w i = elim (Bool-cases (i == this)) [ inl e ↦ rw e refl | inr e ↦ rw e (w i) ]

pub p_impl-set_heap :
    (h : OffsetMalloc.State) (this tmp p i : ℕ)
    → this ≢ tmp
    → h.p_impl this ≡ 0
    → (set_heap h this tmp p).p_impl i
      ≡ (if i == tmp then 0 else if i == this then p else h.p_impl i)
unfolding set_heap OffsetMalloc.attach OffsetMalloc.move_assign OffsetMalloc.destroy
p_impl-set_heap h this tmp p i ne z = ground (arith, ne, z)

Whole-found :
    (hs : ℕ → Header) (p : Option Impl)
    → Whole hs p (get p) (find_channels (get p) (get_hint_value p (hs (address_of p))))
unfolding get
Whole-found hs none = refl
Whole-found hs (some x) = (refl, refl)

Whole-find_parts :
    (st : State) (this tmp : ℕ) (p : Option Impl)
    → this ≢ tmp
    → st.heaps.p_impl this ≡ 0
    → st.shm_obj tmp ≡ none
    → AllWhole st
    → AllWhole (find_parts st this tmp p)
unfolding find_parts
Whole-find_parts st this tmp p ne z t w i =
    let e = p_impl-set_heap st.heaps this tmp (get p) i ne z in
    elim (Bool-cases (i == this)) [
      | inl f ↦
          let g : (i == tmp) ≡ false = ground (arith, ne, f) in
          rw (f, e) (rw (g, f) (Whole-found st.headers p))
      | inr f ↦ elim (Bool-cases (i == tmp)) [
        | inl g ↦ let at : i ≡ tmp = ground (arith, g) in rw (f, e) (rw g (rw (at, t) refl))
        | inr g ↦ rw (f, e) (rw (f, g) (w i))
      ]
    ]

fresh_handle : (st : State) (this : ℕ) → (construct_default st this).heaps.p_impl this ≡ 0
unfolding construct_default
fresh_handle st this = ground arith

fresh_object :
    (st : State) (this tmp : ℕ)
    → this ≢ tmp
    → st.shm_obj tmp ≡ none
    → (construct_default st this).shm_obj tmp ≡ none
unfolding construct_default
fresh_object st this tmp ne t = ground (arith, ne, t)

Whole-construct :
    (st : State) (this tmp : ℕ) (r : Option Impl × Exit × Bool)
    → this ≢ tmp
    → st.shm_obj tmp ≡ none
    → AllWhole st
    → AllWhole (construct st this tmp r).0
unfolding construct
Whole-construct st this tmp (p, goes_on, true) ne t w =
    Whole-find_parts (construct_default st this) this tmp p ne (fresh_handle st this)
      (fresh_object st this tmp ne t) (Whole-default st this w)
Whole-construct st this tmp (p, goes_on, false) ne t w = Whole-default st this w
Whole-construct st this tmp (p, retries, b) ne t w = Whole-default st this w
Whole-construct st this tmp (p, throws_error e, b) ne t w = Whole-default st this w
Whole-construct st this tmp (p, functor_throws, b) ne t w = Whole-default st this w
Whole-construct st this tmp (p, undefined, b) ne t w = Whole-default st this w

Whole-if : (b : Bool) (x y : State) → AllWhole x → AllWhole y → AllWhole (if b then x else y)
Whole-if true x y v w = v
Whole-if false x y v w = w

Whole-move_assign :
    (st : State) (this src tmp : ℕ)
    → tmp ≢ this
    → tmp ≢ src
    → AllWhole st
    → AllWhole (move_assign st this src tmp)
unfolding move_assign
Whole-move_assign st this src tmp ne ne' w =
    Whole-if (this == src) st (destroy (swap (move_construct st tmp src) tmp this) tmp) w (
      Whole-destroy (swap (move_construct st tmp src) tmp this) tmp (
        Whole-swap (move_construct st tmp src) tmp this ne (Whole-move_construct st tmp src ne' w)))

-- What a program does with its objects. A constructor runs where no object is, and so does the one of a
-- temporary object or handle.
pub data Step : State → State → Type 0 where
  constructs :
      (st : State) (this tmp : ℕ) (r : Option Impl × Exit × Bool)
      → this ≢ tmp
      → st.shm_obj this ≡ none
      → st.shm_obj tmp ≡ none
      → Step st (construct st this tmp r).0
  defaults : (st : State) (this : ℕ) → st.shm_obj this ≡ none → Step st (construct_default st this)
  moves :
      (st : State) (this src : ℕ)
      → this ≢ src
      → st.shm_obj this ≡ none
      → Step st (move_construct st this src)
  move_assigns :
      (st : State) (this src tmp : ℕ)
      → tmp ≢ this
      → tmp ≢ src
      → st.shm_obj tmp ≡ none
      → Step st (move_assign st this src tmp)
  destroys : (st : State) (this : ℕ) → Step st (destroy st this)

pub data Run (st : State) : State → Type 0 where
  stay : Run st st
  then_step : (st' st'' : State) → Run st st' → Step st' st'' → Run st st''

Whole-Step : (st st' : State) → AllWhole st → Step st st' → AllWhole st'
Whole-Step _ _ w (constructs st this tmp r ne e t) = Whole-construct st this tmp r ne t w
Whole-Step _ _ w (defaults st this e) = Whole-default st this w
Whole-Step _ _ w (moves st this src ne e) = Whole-move_construct st this src ne w
Whole-Step _ _ w (move_assigns st this src tmp ne ne' e) =
    Whole-move_assign st this src tmp ne ne' w
Whole-Step _ _ w (destroys st this) = Whole-destroy st this w

-- Through any run of constructors, moves, assignments and destructors each object stays whole: its
-- handle is on the allocator of the memory that it holds, its channels are the ones of that memory, and
-- an object that holds no memory has a null handle.
pub AllWhole-Run : (st st' : State) → AllWhole st → Run st st' → AllWhole st'
AllWhole-Run st _ w stay = w
AllWhole-Run st _ w (then_step st' st'' run s) = Whole-Step st' st'' (AllWhole-Run st st' w run) s
