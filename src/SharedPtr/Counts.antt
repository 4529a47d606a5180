-- ===== src/SharedPtr/Counts.antt =====
-- The control blocks against the numbers of objects that point to them.
use procshared_mem.Base.{ℕ, ◌+◌, ◌^◌, ◌<◌, ◌≡◌, ◌≢◌, true, false, arith}
use procshared_mem.Base.Tally.{one}
use procshared_mem.SharedPtr.{
  Ctrl, Heap, shrd, weak, construct_ctrl, dispose_resource, increment, decrement,
  call_destroy_deallocate, settle, try_dispose_com,
}

-- A constructed block counts its `s` shared and `w` weak objects, has some, and holds no resource
-- once the shared ones are gone; no object points to memory where no block stands.
pub record Block (k : Ctrl) (s w : ℕ) : Type 0 where
  pub counts : k.live ≡ true → (k.shrd_refc ≡ s) × (k.weak_refc ≡ w) × (0 < s + w)
  pub disposed : s ≡ 0 → k.op_to_obj ≡ 0
  pub gone : k.live ≡ false → (s ≡ 0) × (w ≡ 0)

abbrev pub Good : Heap → (ℕ → ℕ) → (ℕ → ℕ) → Type 0
Good h S W = (b : ℕ) → b ≢ 0 → Block (h.ctrl b) (S b) (W b)

abbrev pub bound : ℕ
bound = 2 ^ 63

pub Good-increment_shrd :
    (h : Heap) (S S' W : ℕ → ℕ) (c : ℕ)
    → Good h S W
    → c ≢ 0
    → 0 < S c
    → S c + 1 < bound
    → ((b : ℕ) → S' b ≡ S b + one c b)
    → Good (increment h c shrd) S' W
unfolding increment
Good-increment_shrd h S S' W c good hc pos small e b hb = record {
  counts = λ l. ground (arith, e b, good b hb, l);
  disposed = λ z. ground (arith, e b, good b hb, z);
  gone = λ l. ground (arith, e b, good b hb, l);
}

pub Good-increment_weak :
    (h : Heap) (S W W' : ℕ → ℕ) (c : ℕ)
    → Good h S W
    → c ≢ 0
    → 0 < S c + W c
    → W c + 1 < bound
    → ((b : ℕ) → W' b ≡ W b + one c b)
    → Good (increment h c weak) S W'
unfolding increment
Good-increment_weak h S W W' c good hc pos small e b hb = record {
  counts = λ l. ground (arith, e b, good b hb, l);
  disposed = λ z. ground (arith, e b, good b hb, z);
  gone = λ l. ground (arith, e b, good b hb, l);
}

-- A block built on free memory, with the object that its constructor counts.
pub Good-construct_ctrl :
    (h : Heap) (S S' W : ℕ → ℕ) (c p : ℕ)
    → Good h S W
    → c ≢ 0
    → (h.ctrl c).live ≡ false
    → ((b : ℕ) → S' b ≡ S b + one c b)
    → Good (increment (construct_ctrl h c p) c shrd) S' W
unfolding increment construct_ctrl
Good-construct_ctrl h S S' W c p good hc dead e b hb = record {
  counts = λ l. ground (arith, e b, good b hb, l);
  disposed = λ z. ground (arith, e b, good b hb, z);
  gone = λ l. ground (arith, e b, good b hb, l);
}

pub Good-dispose_shrd :
    (h : Heap) (S S' W : ℕ → ℕ) (c : ℕ)
    → Good h S W
    → (c ≢ 0 → 0 < S c × S c < bound × W c < bound)
    → ((b : ℕ) → S' b + one c b ≡ S b)
    → Good (try_dispose_com h c shrd) S' W
unfolding try_dispose_com decrement settle dispose_resource call_destroy_deallocate
Good-dispose_shrd h S S' W c good small e b hb = record {
  counts = λ l. ground (arith, e b, good b hb, small, l);
  disposed = λ z. ground (arith, e b, good b hb, small, z);
  gone = λ l. ground (arith, e b, good b hb, small, l);
}

pub Good-dispose_weak :
    (h : Heap) (S W W' : ℕ → ℕ) (c : ℕ)
    → Good h S W
    → (c ≢ 0 → 0 < W c × S c < bound × W c < bound)
    → ((b : ℕ) → W' b + one c b ≡ W b)
    → Good (try_dispose_com h c weak) S W'
unfolding try_dispose_com decrement settle dispose_resource call_destroy_deallocate
Good-dispose_weak h S W W' c good small e b hb = record {
  counts = λ l. ground (arith, e b, good b hb, small, l);
  disposed = λ z. ground (arith, e b, good b hb, small, z);
  gone = λ l. ground (arith, e b, good b hb, small, l);
}
