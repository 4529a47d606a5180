-- ===== src/ShmMem/Sharing.antt =====
-- What holds however the processes take turns.
use procshared_mem.Base.{
  ℕ, ◌≡◌, ◌≢◌, refl, sym, ap, ◌∙◌, inl, inr, true, false, none, some, ◌==◌, Bool-cases, arith,
}
use procshared_mem.ShmMem.Processes.{
  Phase, outside, starting, initializing, waiting, opening, in_use, leaving, removing, World,
  is_exclusive, is_locked, move, AllUnlocked, new_header, set_ready, Step, start, create,
  create_fails, not_first, init_returns, init_throws, share, time_out, open_fails, not_ready,
  open_ready, leave, not_last, last, unlink, die,
}

pub record IsShared (w : World) : Type 0 where
  -- Who holds the exclusive lock is the only one that holds a lock.
  pub alone : (p q : ℕ) → is_exclusive (w.phase p) ≡ true → is_locked (w.phase q) ≡ true → p ≡ q
  -- Who uses an object uses the one that has the name, and it is ready.
  pub used : (p o : ℕ) → w.phase p ≡ in_use o → (w.named ≡ some o) × (w.ready o ≡ true)

-- One process moves on: where it goes to a lock, the lock is compatible with those of the others.
module _ (w : World) (p : ℕ) (x : Phase)
    (excludes : is_exclusive x ≡ true → (q : ℕ) → q ≢ p → is_locked (w.phase q) ≡ false)
    (joins : is_locked x ≡ true → (q : ℕ) → q ≢ p → is_exclusive (w.phase q) ≡ false) where
  pub moved-alone :
      ((a b : ℕ) → is_exclusive (w.phase a) ≡ true → is_locked (w.phase b) ≡ true → a ≡ b)
      → (a b : ℕ) → is_exclusive ((move w p x).phase a) ≡ true
      → is_locked ((move w p x).phase b) ≡ true
      → a ≡ b
  moved-alone alone a b e f = elim (Bool-cases (a == p)) [
    | inl u ↦ elim (Bool-cases (b == p)) [
      | inl v ↦ ground (arith, u, v)
      | inr v ↦ ground (arith, u, v, e, f, excludes (ground (arith, u, e)) b (ground (arith, v)))
    ]
    | inr u ↦ elim (Bool-cases (b == p)) [
      | inl v ↦ ground (arith, u, v, e, f, joins (ground (arith, v, f)) a (ground (arith, u)))
      | inr v ↦ ground (arith, u, v, e, f, alone a b (ground (arith, u, e)) (ground (arith, v, f)))
    ]
  ]

move-IsShared :
    (w : World) (p : ℕ) (x : Phase)
    → IsShared w
    → (is_exclusive x ≡ true → (q : ℕ) → q ≢ p → is_locked (w.phase q) ≡ false)
    → (is_locked x ≡ true → (q : ℕ) → q ≢ p → is_exclusive (w.phase q) ≡ false)
    → ((o : ℕ) → x ≡ in_use o → (w.named ≡ some o) × (w.ready o ≡ true))
    → IsShared (move w p x)
move-IsShared w p x s e f g = record {
  alone = moved-alone w p x e f s.alone;
  used = λ q o h. elim (Bool-cases (q == p)) [
    | inl u ↦ g o (ground (arith, u, h))
    | inr u ↦ s.used q o (ground (arith, u, h))
  ];
}

-- The process gives up what it has, or had nothing and takes nothing.
unlocked-IsShared :
    (w : World) (p : ℕ) (x : Phase)
    → IsShared w
    → is_locked x ≡ false
    → is_exclusive x ≡ false
    → ((o : ℕ) → x ≢ in_use o)
    → IsShared (move w p x)
unlocked-IsShared w p x s e f g =
    move-IsShared w p x s (λ h. absurd (ground (arith, f, h))) (λ h. absurd (ground (arith, e, h)))
      (λ o h. absurd (g o h))

exclusive_locked : (x : Phase) → is_exclusive x ≡ true → is_locked x ≡ true
exclusive_locked x e = ground (arith, e)

pub unlocked_exclusive : (x : Phase) → is_locked x ≡ false → is_exclusive x ≡ false
unlocked_exclusive x e = ground (arith, e)

-- Beside a process with the exclusive lock nobody has one, and nobody uses an object.
module _ (w : World) (p : ℕ) (s : IsShared w) (e : is_exclusive (w.phase p) ≡ true) where
  pub others_unlocked : (q : ℕ) → q ≢ p → is_locked (w.phase q) ≡ false
  others_unlocked q ne = elim (Bool-cases (is_locked (w.phase q))) [
    | inl h ↦ absurd (ne (sym (s.alone p q e h)))
    | inr h ↦ h
  ]

  none_used : (q o : ℕ) → q ≢ p → w.phase q ≢ in_use o
  none_used q o ne h = absurd (ground (arith, others_unlocked q ne, ap is_locked h))

-- Nobody uses an object where nobody has a lock.
pub unlocked-used : (w : World) → AllUnlocked w → (q o : ℕ) → w.phase q ≢ in_use o
unlocked-used w free q o h = absurd (ground (arith, free q, ap is_locked h))

-- Beside a process with the shared lock nobody has the exclusive one.
none_exclusive :
    (w : World) (p : ℕ)
    → IsShared w
    → is_locked (w.phase p) ≡ true
    → (q : ℕ) → q ≢ p
    → is_exclusive (w.phase q) ≡ false
none_exclusive w p s e q ne = elim (Bool-cases (is_exclusive (w.phase q))) [
  | inl h ↦ absurd (ne (s.alone q p h e))
  | inr h ↦ h
]

-- The steps of a process with the exclusive lock: they change the name and the headers.
create-IsShared : (w : World) (p o : ℕ) → IsShared w → AllUnlocked w → IsShared (new_header w p o)
create-IsShared w p o s free = record {
  alone =
      moved-alone w p (initializing o) (λ h q ne. free q)
        (λ h q ne. unlocked_exclusive (w.phase q) (free q)) s.alone;
  used = λ q o' h. elim (Bool-cases (q == p)) [
    | inl u ↦ absurd (ground (arith, u, h))
    | inr u ↦ absurd (unlocked-used w free q o' (ground (arith, u, h)))
  ];
}

set_ready-IsShared :
    (w : World) (p o v : ℕ)
    → IsShared w
    → is_exclusive (w.phase p) ≡ true
    → IsShared (set_ready w p o v)
set_ready-IsShared w p o v s e = record {
  alone =
      moved-alone w p waiting (λ h. absurd (ground (arith, h))) (λ h. absurd (ground (arith, h)))
        s.alone;
  used = λ q o' h. elim (Bool-cases (q == p)) [
    | inl u ↦ absurd (ground (arith, u, h))
    | inr u ↦ absurd (none_used w p s e q o' (ground (arith, u)) (ground (arith, u, h)))
  ];
}

unlink-IsShared :
    (w : World) (p : ℕ)
    → IsShared w
    → is_exclusive (w.phase p) ≡ true
    → IsShared (record (move w p outside) { named = none })
unlink-IsShared w p s e = record {
  alone =
      moved-alone w p outside (λ h. absurd (ground (arith, h))) (λ h. absurd (ground (arith, h)))
        s.alone;
  used = λ q o' h. elim (Bool-cases (q == p)) [
    | inl u ↦ absurd (ground (arith, u, h))
    | inr u ↦ absurd (none_used w p s e q o' (ground (arith, u)) (ground (arith, u, h)))
  ];
}

open_ready-IsShared :
    (w : World) (p o : ℕ)
    → IsShared w
    → w.phase p ≡ opening
    → w.named ≡ some o
    → w.ready o ≡ true
    → IsShared (move w p (in_use o))
open_ready-IsShared w p o s e n r =
    move-IsShared w p (in_use o) s (λ h. absurd (ground (arith, h)))
      (λ h. none_exclusive w p s (ap is_locked e))
      (λ o' h.
        let same : o ≡ o' = ground (arith, h) in (n ∙ ap some same, ap w.ready (sym same) ∙ r))

pub Step-IsShared : (w w' : World) → Step w w' → IsShared w → IsShared w'
Step-IsShared w w' (start p e) s =
    unlocked-IsShared w p starting s refl refl (λ o h. ground (arith, h))
Step-IsShared w w' (create p o e free n) s = create-IsShared w p o s free
Step-IsShared w w' (create_fails p e free) s =
    unlocked-IsShared w p outside s refl refl (λ o h. ground (arith, h))
Step-IsShared w w' (not_first p q e l) s =
    unlocked-IsShared w p waiting s refl refl (λ o h. ground (arith, h))
Step-IsShared w w' (init_returns p o v e) s = set_ready-IsShared w p o v s (ap is_exclusive e)
Step-IsShared w w' (init_throws p o e) s =
    unlocked-IsShared w p outside s refl refl (λ o h. ground (arith, h))
Step-IsShared w w' (share p e free) s =
    move-IsShared w p opening s (λ h. absurd (ground (arith, h))) (λ h q ne. free q)
      (λ o h. absurd (ground (arith, h)))
Step-IsShared w w' (time_out p e) s =
    unlocked-IsShared w p outside s refl refl (λ o h. ground (arith, h))
Step-IsShared w w' (open_fails p e) s =
    unlocked-IsShared w p starting s refl refl (λ o h. ground (arith, h))
Step-IsShared w w' (not_ready p o e n r) s =
    unlocked-IsShared w p starting s refl refl (λ o h. ground (arith, h))
Step-IsShared w w' (open_ready p o e n r) s = open_ready-IsShared w p o s e n r
Step-IsShared w w' (leave p o e) s =
    unlocked-IsShared w p leaving s refl refl (λ o h. ground (arith, h))
Step-IsShared w w' (not_last p q e l) s =
    unlocked-IsShared w p outside s refl refl (λ o h. ground (arith, h))
Step-IsShared w w' (last p e free) s =
    move-IsShared w p removing s (λ h q ne. free q)
      (λ h q ne. unlocked_exclusive (w.phase q) (free q)) (λ o h. absurd (ground (arith, h)))
Step-IsShared w w' (unlink p e) s = unlink-IsShared w p s (ap is_exclusive e)
Step-IsShared w w' (die p) s = unlocked-IsShared w p outside s refl refl (λ o h. ground (arith, h))
