-- ===== src/ShmMem/Owned.antt =====
-- What the mapping guard holds of the system, and the size of a mapping.
use procshared_mem.Base.{
  ℕ, ◌+◌, ◌-◌, ◌*◌, ◌/◌, ◌%◌, ◌^◌, ◌≤◌, ◌<◌, ◌≡◌, ◌≢◌, refl, inl, inr, Bool, true, false, not, ◌||◌,
  some, ltb, ◌==◌, Bool-cases, arith,
}
use native.Mathlib.Nat.{div-add-mod', mod-lt, mul-mod_left}
use procshared_mem.Base.Word.{add_word, sub_word}
use procshared_mem.Base.Tally.{update}
use procshared_mem.ShmMem.{
  Answer, ok, fails, ipsm_mem_error, Os, ShmGuard, empty_guard, Result, returns, throws, max_off,
  roundup_to_page_size, destroy, map_opened, map_created, open_shm, create,
}

-- The system hands out descriptors and addresses that are not in use.
abbrev pub FreshFd : Os → Answer → Type 0
FreshFd os answer = (fd : ℕ) → answer ≡ ok fd → os.is_open fd ≡ false

abbrev pub FreshMap : Os → Answer → Type 0
FreshMap os answer = (a : ℕ) → answer ≡ ok a → (a ≢ 0) × (os.is_mapped a ≡ false)

-- The same descriptors are open and the same addresses mapped.
abbrev pub Same : Os → Os → Type 0
Same os os' =
    ((f : ℕ) → os'.is_open f ≡ os.is_open f) × ((a : ℕ) → os'.is_mapped a ≡ os.is_mapped a)

given_back :
    (os : Os) (fd a len : ℕ)
    → os.is_open fd ≡ false
    → a ≢ 0
    → os.is_mapped a ≡ false
    → Same os (
        destroy
          (record { is_open = update os.is_open fd true; is_mapped = update os.is_mapped a true })
          (record { fd = some fd; p_addr = a; length = len }))
unfolding destroy
given_back os fd a len ho ha hm = (λ f. ground (arith, ho, ha, hm), λ b. ground (arith, ho, ha, hm))

closed_again :
    (os : Os) (fd : ℕ)
    → os.is_open fd ≡ false
    → Same os (record os { is_open = update (update os.is_open fd true) fd false })
closed_again os fd ho = (λ f. ground (arith, ho), λ b. refl)

destroy-empty : (os : Os) → Same os (destroy os empty_guard)
unfolding destroy
destroy-empty os = (λ f. refl, λ a. refl)

destroy-map_opened :
    (os : Os) (fd aligned : ℕ) (mmap : Answer)
    → os.is_open fd ≡ false
    → FreshMap os mmap
    → let r = map_opened os empty_guard fd aligned mmap in Same os (destroy r.0 r.1)
unfolding map_opened destroy
destroy-map_opened os fd aligned (fails e) ho hm = closed_again os fd ho
destroy-map_opened os fd aligned (ok a) ho hm =
    given_back os fd a aligned ho (hm a refl).0 (hm a refl).1

destroy-map_created :
    (os : Os) (fd aligned : ℕ) (ftruncate mmap : Answer)
    → os.is_open fd ≡ false
    → FreshMap os mmap
    → let r = map_created os empty_guard fd aligned ftruncate mmap in Same os (destroy r.0 r.1)
unfolding map_created destroy
destroy-map_created os fd aligned (fails e) mmap ho hm = closed_again os fd ho
destroy-map_created os fd aligned (ok z) (fails e) ho hm = closed_again os fd ho
destroy-map_created os fd aligned (ok z) (ok a) ho hm =
    given_back os fd a aligned ho (hm a refl).0 (hm a refl).1

-- Whatever the system answers, `open` on an empty guard, and then the destructor, leave the
-- descriptors and mappings of the process as they were, when new descriptors and addresses are not in
-- use.
pub destroy-open_shm :
    (os : Os) (name_empty : Bool) (page_size length : ℕ) (shm mmap : Answer)
    → FreshFd os shm
    → FreshMap os mmap
    → let r = open_shm os empty_guard name_empty page_size length shm mmap in
      Same os (destroy r.0 r.1)
unfolding open_shm
destroy-open_shm os name_empty page_size length shm mmap hf hm =
    elim (Bool-cases (name_empty || (length == 0) || ltb max_off length)) [
      | inl e ↦ rw e (destroy-empty os)
      | inr e ↦ rw e (after_shm_open shm hf)
    ]
  where
    after_shm_open :
        (shm : Answer)
        → FreshFd os shm
        → let r = elim shm as (λ x. Os × ShmGuard × Result) [
          | fails e ↦ (os, empty_guard, returns false)
          | ok fd ↦ map_opened os empty_guard fd (roundup_to_page_size page_size length) mmap
        ] in
          Same os (destroy r.0 r.1)
    after_shm_open (fails e) hf = destroy-empty os
    after_shm_open (ok fd) hf =
        destroy-map_opened os fd (roundup_to_page_size page_size length) mmap (hf fd refl) hm

-- Whatever the system answers, `create` on an empty guard, on every branch and with its exceptions, and
-- then the destructor, leave the descriptors and mappings of the process as they were, when new
-- descriptors and addresses are not in use.
pub destroy-create :
    (os : Os) (name_empty slash_first : Bool) (page_size length : ℕ) (shm ftruncate mmap : Answer)
    → FreshFd os shm
    → FreshMap os mmap
    → let r = create os empty_guard name_empty slash_first page_size length shm ftruncate mmap in
      Same os (destroy r.0 r.1)
unfolding create
destroy-create os name_empty slash_first page_size length shm ftruncate mmap hf hm =
    elim (Bool-cases (name_empty || not slash_first || (length == 0) || ltb max_off length)) [
      | inl e ↦ rw e (destroy-empty os)
      | inr e ↦ rw e (after_shm_open shm hf)
    ]
  where
    after_shm_open :
        (shm : Answer)
        → FreshFd os shm
        → let r = elim shm as (λ x. Os × ShmGuard × Result) [
          | fails e ↦ (os, empty_guard, throws (ipsm_mem_error e))
          | ok fd ↦
              map_created os empty_guard fd (roundup_to_page_size page_size length) ftruncate mmap
        ] in
          Same os (destroy r.0 r.1)
    after_shm_open (fails e) hf = destroy-empty os
    after_shm_open (ok fd) hf =
        destroy-map_created os fd (roundup_to_page_size page_size length) ftruncate mmap
          (hf fd refl) hm

-- The length of a mapping is the least multiple of the page size that holds the length asked for,
-- with no overflow up to the largest length that `open` and `create` take.
pub roundup-bounds :
    (page_size length : ℕ)
    → 0 < page_size
    → page_size < 2 ^ 32
    → length ≤ max_off
    → let r = roundup_to_page_size page_size length in
      (length ≤ r) × (r < length + page_size) × (r % page_size ≡ 0)
unfolding roundup_to_page_size
roundup-bounds page_size length hp small hl = rw (no_wrap page_size length hp small hl) (
  least length page_size ((length + page_size - 1) / page_size * page_size)
      ((length + page_size - 1) % page_size) hp (div-add-mod' (length + page_size - 1) page_size)
      (mod-lt (length + page_size - 1) hp),
  most length page_size ((length + page_size - 1) / page_size * page_size)
      ((length + page_size - 1) % page_size) hp (div-add-mod' (length + page_size - 1) page_size),
  mul-mod_left ((length + page_size - 1) / page_size) page_size,
)
  where
    no_wrap :
        (page_size length : ℕ)
        → 0 < page_size
        → page_size < 2 ^ 32
        → length ≤ max_off
        → sub_word (add_word length page_size) 1 ≡ length + page_size - 1
    no_wrap page_size length hp small hl = omega (arith, hp, small, hl)

    least : (l p q m : ℕ) → 0 < p → q + m ≡ l + p - 1 → m < p → l ≤ q
    least l p q m h e k = omega (arith, h, e, k)

    most : (l p q m : ℕ) → 0 < p → q + m ≡ l + p - 1 → q < l + p
    most l p q m h e = omega (arith, h, e)
