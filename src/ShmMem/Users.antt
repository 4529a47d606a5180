-- ===== src/ShmMem/Users.antt =====
-- What the processes that use one shared memory can rely on, and that a set-up can always be finished.
use procshared_mem.Base.{
  ℕ, ◌≡◌, refl, ap, ◌∙◌, ◌⊎◌, inl, inr, true, false, none, some, ◌==◌, Bool-cases, arith,
}
use procshared_mem.ShmMem.Processes.{
  starting, opening, in_use, World, is_exclusive, is_locked, move, AllUnlocked, new_header,
  set_ready, Step, start, create, create_fails, not_first, init_returns, init_throws, share,
  time_out, open_fails, not_ready, open_ready, leave, not_last, last, unlink, die, Steps, done,
  after, IsIdle,
}
use procshared_mem.ShmMem.Sharing.{IsShared, unlocked_exclusive, unlocked-used, Step-IsShared}

IsIdle-IsShared : (w : World) → IsIdle w → IsShared w
IsIdle-IsShared w i = record {
  alone = λ p q e f. absurd (ground (arith, e, ap is_exclusive (i.idle p)));
  used = λ p o h. absurd (ground (arith, h, i.idle p));
}

Steps-IsShared : (w w' : World) → Steps w w' → IsShared w → IsShared w'
Steps-IsShared w w' done s = s
Steps-IsShared w w' (after {w' = v} k j) s = Step-IsShared v w' j (Steps-IsShared w v k s)

-- However processes start, fail, leave and die: all that use the shared memory use one and the same
-- object, the one that has the name, which is ready; and while they do, no process sets up or removes it.
pub in_use-Steps :
    (w w' : World) (p q o o' : ℕ)
    → IsIdle w
    → Steps w w'
    → w'.phase p ≡ in_use o
    → w'.phase q ≡ in_use o'
    → (o ≡ o')
      × (w'.named ≡ some o)
      × (w'.ready o ≡ true)
      × ((k : ℕ) → is_exclusive (w'.phase k) ≡ false)
in_use-Steps w w' p q o o' i k e f =
    let s = Steps-IsShared w w' k (IsIdle-IsShared w i) in
    let a = s.used p o e in
    let b = s.used q o' f in
    (
      ground (arith, a.0, b.0),
      a.0,
      a.1,
      λ n. elim (Bool-cases (is_exclusive (w'.phase n))) [
        | inr h ↦ h
        | inl h ↦
            let same = s.alone n p h (ap is_locked e) in
            absurd (ground (arith, h, ap is_exclusive (ap w'.phase same ∙ e)))
      ],
    )

-- The object that a process uses stays as it is, whichever process takes the next step.
module _ (w : World) (p o : ℕ) (s : IsShared w) (e : w.phase p ≡ in_use o) where
  unlocked_no :
      AllUnlocked w
      → (w' : World) → (w'.named ≡ w.named) × (w'.ready o ≡ w.ready o) × (w'.value o ≡ w.value o)
  unlocked_no free w' = absurd (unlocked-used w free p o e)

  exclusive_no :
      (q : ℕ)
      → is_exclusive (w.phase q) ≡ true
      → (w' : World) → (w'.named ≡ w.named) × (w'.ready o ≡ w.ready o) × (w'.value o ≡ w.value o)
  exclusive_no q h w' =
      let same = s.alone q p h (ap is_locked e) in
      absurd (ground (arith, h, ap is_exclusive (ap w.phase same ∙ e)))

  pub Step-kept :
      (w' : World)
      → Step w w'
      → (w'.named ≡ w.named) × (w'.ready o ≡ w.ready o) × (w'.value o ≡ w.value o)
  Step-kept w' (start q f) = (refl, refl, refl)
  Step-kept w' (create q n f free k) = unlocked_no free w'
  Step-kept w' (create_fails q f free) = (refl, refl, refl)
  Step-kept w' (not_first q k f l) = (refl, refl, refl)
  Step-kept w' (init_returns q n v f) = exclusive_no q (ap is_exclusive f) w'
  Step-kept w' (init_throws q n f) = (refl, refl, refl)
  Step-kept w' (share q f free) = (refl, refl, refl)
  Step-kept w' (time_out q f) = (refl, refl, refl)
  Step-kept w' (open_fails q f) = (refl, refl, refl)
  Step-kept w' (not_ready q n f k r) = (refl, refl, refl)
  Step-kept w' (open_ready q n f k r) = (refl, refl, refl)
  Step-kept w' (leave q n f) = (refl, refl, refl)
  Step-kept w' (not_last q k f l) = (refl, refl, refl)
  Step-kept w' (last q f free) = (refl, refl, refl)
  Step-kept w' (unlink q f) = exclusive_no q (ap is_exclusive f) w'
  Step-kept w' (die q) = (refl, refl, refl)

-- Steps during which the process `p` uses the object `o` all the time.
pub data Using (p o : ℕ) (w : World) : World → Type 0 where
  using : w.phase p ≡ in_use o → Using p o w w
  using_on :
      {w' w'' : World} → Using p o w w' → Step w' w'' → w''.phase p ≡ in_use o → Using p o w w''

Using-phase : (p o : ℕ) (w w' : World) → Using p o w w' → w'.phase p ≡ in_use o
Using-phase p o w w' (using e) = e
Using-phase p o w w' (using_on k j e) = e

Using-IsShared : (p o : ℕ) (w w' : World) → Using p o w w' → IsShared w → IsShared w'
Using-IsShared p o w w' (using e) s = s
Using-IsShared p o w w' (using_on {w' = v} k j e) s =
    Step-IsShared v w' j (Using-IsShared p o w v k s)

using_same :
    (p o : ℕ) (w w' : World)
    → Using p o w w'
    → IsShared w
    → (w'.named ≡ w.named) × (w'.ready o ≡ w.ready o) × (w'.value o ≡ w.value o)
using_same p o w w' (using e) s = (refl, refl, refl)
using_same p o w w' (using_on {w' = v} k j e) s =
    let a = using_same p o w v k s in
    let b = Step-kept v p o (Using-IsShared p o w v k s) (Using-phase p o w v k) w' j in
    (b.0 ∙ a.0, b.1 ∙ a.1, b.2 ∙ a.2)

-- While a process uses the shared memory, and whatever the others do, die included, the name stands for
-- the same object, it stays ready, and the value that its creator shared stays the same.
pub sharing_value-Using :
    (w w' w'' : World) (p o : ℕ)
    → IsIdle w
    → Steps w w'
    → Using p o w' w''
    → (w''.named ≡ some o) × (w''.ready o ≡ true) × (w''.value o ≡ w'.value o)
sharing_value-Using w w' w'' p o i k u =
    let s = Steps-IsShared w w' k (IsIdle-IsShared w i) in
    let t = (Using-IsShared p o w' w'' u s).used p o (Using-phase p o w' w'' u) in
    (t.0, t.1, (using_same p o w' w'' u s).2)

-- Where no process has a lock, whatever an earlier one has left behind when it died, a process that
-- starts can create the object, initialise it with any value, and use it with that value.
pub set_up-Steps :
    (w : World) (p o v : ℕ)
    → w.phase p ≡ starting
    → AllUnlocked w
    → (w.named ≡ some o) ⊎ (w.named ≡ none)
    → (w' : World) × Steps w w' × (w'.phase p ≡ in_use o) × (w'.value o ≡ v)
set_up-Steps w p o v e free n =
    let w1 = new_header w p o in
    let w2 = set_ready w1 p o v in
    let w3 = move w2 p opening in
    let w4 = move w3 p (in_use o) in
    (
      w4,
      after
          (after (after (after done (create p o e free n)) (init_returns p o v (ground arith))) (
            share p (ground arith) (λ q. elim (Bool-cases (q == p)) [
              | inl u ↦ rw u refl
              | inr u ↦ rw u (unlocked_exclusive (w.phase q) (free q))
            ])))
          (open_ready p o (ground arith) refl (ground arith)),
      ground arith,
      ground arith,
    )
