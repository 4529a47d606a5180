-- ===== src/OffsetPtr/Relocate.antt =====
-- A region with pointer objects in it, wherever it is mapped. The region as such is a function from
-- the place of each object in it to the place of its target, `none` for null; `base` is the address
-- that one process has mapped it at.
use procshared_mem.Base.{
  ℕ, ◌+◌, ◌*◌, ◌%◌, ◌<◌, ◌≤◌, ◌≡◌, ◌≢◌, refl, Option, none, some, ◌==◌, Bool-cases, inl, inr,
  if◌then◌else◌, arith,
}
use procshared_mem.Base.Word.{word_mod, add_word, sub_word}
use procshared_mem.Base.Tally.{update}
use procshared_mem.OffsetPtr.{
  Ptr, null, Offsets, write, calc_offset, calc_address, get, construct_default, construct,
  copy_construct, move_construct, assign_nullptr, copy_assign, move_assign, convert_assign,
  convert_move_assign, swap, add_assign, sub_assign, pre_increment, pre_decrement,
}

abbrev pub Places : Type 0
Places = ℕ → Option ℕ

-- The address of a place, and what the object at place `i` stores for it.
abbrev pub address : ℕ → Option ℕ → Ptr
address base none = null
address base (some t) = base + t

abbrev pub offset_to : ℕ → Option ℕ → ℕ
offset_to i none = 0
offset_to i (some t) = sub_word t i

-- An object cannot stand for its own place, which is kept as null.
abbrev pub kept : ℕ → Option ℕ → Option ℕ
kept i none = none
kept i (some t) = if t == i then none else some t

abbrev pub Within : ℕ → Option ℕ → Type 0
Within len none = Unit {0}
Within len (some t) = t < len

abbrev pub Target : ℕ → ℕ → Option ℕ → Type 0
Target len i none = Unit {0}
Target len i (some t) = (t < len) × (t ≢ i)

-- The region of `len` bytes at `base`, whose objects stand for `a`.
abbrev pub Represents : ℕ → ℕ → Offsets → Places → Type 0
Represents len base m a =
    (i : ℕ) → i < len → (m (base + i) ≡ offset_to i (a i)) × Target len i (a i)

pub Within-Target : (len i : ℕ) (v : Option ℕ) → Target len i v → Within len v
Within-Target len i none h = tt
Within-Target len i (some t) h = h.0

Target-kept : (len i : ℕ) (v : Option ℕ) → Within len v → Target len i (kept i v)
Target-kept len i none h = tt
Target-kept len i (some t) h = elim (Bool-cases (t == i)) [
  | inl e ↦ rw e tt
  | inr e ↦ rw e (h, ground (arith, e))
]

module _ (len base : ℕ) (pos : 0 < base) (end : base + len ≤ word_mod) where
  read_lem :
      (i : ℕ) (v : Option ℕ)
      → i < len
      → Target len i v
      → calc_address (base + i) (offset_to i v) ≡ address base v
  unfolding calc_address
  read_lem i none h t = refl
  read_lem i (some p) h t = ground (arith, pos, end)

  store_lem :
      (i : ℕ) (v : Option ℕ)
      → i < len
      → Within len v
      → calc_offset (base + i) (address base v) ≡ offset_to i (kept i v)
  unfolding calc_offset
  store_lem i none h t = refl
  store_lem i (some p) h t = ground (arith, pos, end)

  pub get-Represents :
      (m : Offsets) (a : Places) (i : ℕ)
      → Represents len base m a
      → i < len
      → get m (base + i) ≡ address base (a i)
  unfolding get
  get-Represents m a i r h = rw ((r i h).0) (read_lem i (a i) h (r i h).1)

  pub Represents-write :
      (m : Offsets) (a : Places) (i : ℕ) (v : Option ℕ)
      → Represents len base m a
      → i < len
      → Within len v
      → Represents len base
          (write m (base + i) (calc_offset (base + i) (address base v)))
          (update a i (kept i v))
  unfolding write
  Represents-write m a i v r h w j k =
      let place : (base + j == base + i) ≡ (j == i) = ground arith in
      elim (Bool-cases (j == i)) [
        | inl e ↦
            let same : j ≡ i = ground (arith, e) in
            rw (place, e, same) (store_lem i v h w, Target-kept len i v w)
        | inr e ↦ rw (place, e) (r j k)
      ]

  pub Represents-null :
      (m : Offsets) (a : Places) (i : ℕ)
      → Represents len base m a
      → i < len
      → Represents len base (write m (base + i) 0) (update a i none)
  unfolding calc_offset
  Represents-null m a i r h = Represents-write m a i none r h tt

-- The member functions that change an object, on the objects at the places `i` and `j`.
pub data Call : Type 0 where
  defaults : (i : ℕ) → Call
  builds : (i : ℕ) → Option ℕ → Call
  copies : (i j : ℕ) → Call
  moves : (i j : ℕ) → Call
  clears : (i : ℕ) → Call
  copy_assigns : (i j : ℕ) → Call
  move_assigns : (i j : ℕ) → Call
  converts : (i j : ℕ) → Call
  convert_moves : (i j : ℕ) → Call
  swaps : (i j : ℕ) → Call
  adds : (i d : ℕ) → Call
  subs : (i d : ℕ) → Call
  increments : (i : ℕ) → Call
  decrements : (i : ℕ) → Call

-- The call in a process that has mapped the region at `base`.
unfoldable pub apply_call : ℕ → ℕ → Offsets → Call → Offsets
apply_call size base m (defaults i) = construct_default m (base + i)
apply_call size base m (builds i v) = construct m (base + i) (address base v)
apply_call size base m (copies i j) = copy_construct m (base + i) (base + j)
apply_call size base m (moves i j) = move_construct m (base + i) (base + j)
apply_call size base m (clears i) = assign_nullptr m (base + i)
apply_call size base m (copy_assigns i j) = copy_assign m (base + i) (base + j)
apply_call size base m (move_assigns i j) = move_assign m (base + i) (base + j)
apply_call size base m (converts i j) = convert_assign m (base + i) (base + j)
apply_call size base m (convert_moves i j) = convert_move_assign m (base + i) (base + j)
apply_call size base m (swaps i j) = swap m (base + i) (base + j)
apply_call size base m (adds i d) = add_assign size m (base + i) d
apply_call size base m (subs i d) = sub_assign size m (base + i) d
apply_call size base m (increments i) = pre_increment size m (base + i)
apply_call size base m (decrements i) = pre_decrement size m (base + i)

-- The same call on places, with no address in it.
abbrev pub set : Places → ℕ → Option ℕ → Places
set a i v = update a i (kept i v)

abbrev pub shift : (ℕ → ℕ) → Option ℕ → Option ℕ
shift f none = none
shift f (some t) = some (f t)

unfoldable pub place_call : ℕ → Places → Call → Places
place_call size a (defaults i) = update a i none
place_call size a (builds i v) = set a i v
place_call size a (copies i j) = set a i (a j)
place_call size a (moves i j) = update (set a i (a j)) j none
place_call size a (clears i) = update a i none
place_call size a (copy_assigns i j) = if i == j then a else set a i (a j)
place_call size a (move_assigns i j) = if i == j then a else update (set a i (a j)) j none
place_call size a (converts i j) = set a i (a j)
place_call size a (convert_moves i j) = update (set a i (a j)) j none
place_call size a (swaps i j) = set (set a j (a i)) i (a j)
place_call size a (adds i d) = set a i (shift (λ t. add_word t (d * size)) (a i))
place_call size a (subs i d) = set a i (shift (λ t. sub_word t (d * size % word_mod)) (a i))
place_call size a (increments i) = set a i (shift (λ t. add_word t size) (a i))
place_call size a (decrements i) = set a i (shift (λ t. sub_word t size) (a i))
