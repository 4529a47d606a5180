-- ===== src/SharedPtr/Resource.antt =====
-- One resource through a run: which control block owns it, and the calls of the deleter on it.
use procshared_mem.Base.{
  ℕ, ◌≡◌, ◌≢◌, subst, true, false, ◌∷◌, ◌==◌, ◌⊎◌, inl, inr, Bool-cases, arith,
}
use procshared_mem.Base.Tally.{count, count-cons}
use procshared_mem.UniquePtr.{call_deleter}
use procshared_mem.SharedPtr.{
  Heap, Counter, shrd, weak, construct_ctrl, dispose_resource, increment, decrement,
  call_destroy_deallocate, settle, try_dispose_com, not_positive,
}

-- The block `c` owns `p`, alone, and no deleter was called on it; or no block owns it and the deleter
-- was called once.
pub record Held (p c : ℕ) (h : Heap) : Type 0 where
  pub owner : (h.ctrl c).op_to_obj ≡ p
  pub alone : (b : ℕ) → b ≢ c → (h.ctrl b).op_to_obj ≢ p
  pub untouched : count h.deleted p ≡ 0

pub record Deleted (p : ℕ) (h : Heap) : Type 0 where
  pub nobody : (b : ℕ) → (h.ctrl b).op_to_obj ≢ p
  pub once : count h.deleted p ≡ 1

-- A change of the control blocks that neither hands `p` over nor gives it up.
pub data Touch (p : ℕ) : Heap → Heap → Type 0 where
  leaves : (h : Heap) → Touch p h h
  counts : (h : Heap) (c : ℕ) (t : Counter) → Touch p h (increment h c t)
  builds :
      (h : Heap) (cb q : ℕ)
      → q ≢ p
      → (h.ctrl cb).op_to_obj ≡ 0
      → Touch p h (increment (construct_ctrl h cb q) cb shrd)
  refuses : (h : Heap) (q : ℕ) → q ≢ p → Touch p h (record h { deleted = q ∷ h.deleted })
  refuses_twice : (h : Heap) (q : ℕ) → q ≢ p → Touch p h (record h { deleted = q ∷ q ∷ h.deleted })

-- What one operation does to them: such a change, and at most one object that goes after it.
pub data Turn (p : ℕ) : Heap → Heap → Type 0 where
  touched : {h h' : Heap} → Touch p h h' → Turn p h h'
  dropped : {h h' : Heap} (c : ℕ) (t : Counter) → Touch p h h' → Turn p h (try_dispose_com h' c t)

module _ (p c : ℕ) (hp : p ≢ 0) where
  Held-Touch : {h h' : Heap} → Touch p h h' → Held p c h → Held p c h'
  unfolding increment construct_ctrl
  Held-Touch (leaves h) s = s
  Held-Touch (counts h d shrd) s = record {
    owner = ground (arith, s.owner);
    alone = λ b ne. ground (arith, s.alone b ne);
    untouched = s.untouched;
  }
  Held-Touch (counts h d weak) s = record {
    owner = ground (arith, s.owner);
    alone = λ b ne. ground (arith, s.alone b ne);
    untouched = s.untouched;
  }
  Held-Touch (builds h cb q ne e) s = record {
    owner = ground (arith, s.owner, hp);
    alone = λ b nb. ground (arith, s.alone b nb);
    untouched = s.untouched;
  }
  Held-Touch (refuses h q ne) s = record {
    owner = s.owner;
    alone = s.alone;
    untouched = ground (arith, count-cons h.deleted q p, s.untouched);
  }
  Held-Touch (refuses_twice h q ne) s = record {
    owner = s.owner;
    alone = s.alone;
    untouched =
        ground (arith, count-cons (q ∷ h.deleted) q p, count-cons h.deleted q p, s.untouched);
  }

  Deleted-Touch : {h h' : Heap} → Touch p h h' → Deleted p h → Deleted p h'
  unfolding increment construct_ctrl
  Deleted-Touch (leaves h) s = s
  Deleted-Touch (counts h d shrd) s = record {
    nobody = λ b. ground (arith, s.nobody b);
    once = s.once;
  }
  Deleted-Touch (counts h d weak) s = record {
    nobody = λ b. ground (arith, s.nobody b);
    once = s.once;
  }
  Deleted-Touch (builds h cb q ne e) s = record {
    nobody = λ b. ground (arith, s.nobody b);
    once = s.once;
  }
  Deleted-Touch (refuses h q ne) s = record {
    nobody = s.nobody;
    once = ground (arith, count-cons h.deleted q p, s.once);
  }
  Deleted-Touch (refuses_twice h q ne) s = record {
    nobody = s.nobody;
    once = ground (arith, count-cons (q ∷ h.deleted) q p, count-cons h.deleted q p, s.once);
  }

  Deleted-dispose :
      (h : Heap) (d : ℕ) (t : Counter) → Deleted p h → Deleted p (try_dispose_com h d t)
  unfolding try_dispose_com decrement settle dispose_resource call_destroy_deallocate call_deleter
  Deleted-dispose h d shrd s = record {
    nobody = λ b. ground (arith, s.nobody b, hp);
    once = ground (arith, s.nobody d, s.once, count-cons h.deleted (h.ctrl d).op_to_obj p);
  }
  Deleted-dispose h d weak s = record {
    nobody = λ b. ground (arith, s.nobody b, hp);
    once = ground (arith, s.nobody d, s.once, count-cons h.deleted (h.ctrl d).op_to_obj p);
  }

  Held-other :
      (h : Heap) (d : ℕ) (t : Counter) → d ≢ c → Held p c h → Held p c (try_dispose_com h d t)
  unfolding try_dispose_com decrement settle dispose_resource call_destroy_deallocate call_deleter
  Held-other h d shrd ne s = record {
    owner = ground (arith, s.owner);
    alone = λ b nb. ground (arith, s.alone b nb, hp);
    untouched =
        ground (arith, s.alone d ne, s.untouched, count-cons h.deleted (h.ctrl d).op_to_obj p);
  }
  Held-other h d weak ne s = record {
    owner = ground (arith, s.owner);
    alone = λ b nb. ground (arith, s.alone b nb, hp);
    untouched =
        ground (arith, s.alone d ne, s.untouched, count-cons h.deleted (h.ctrl d).op_to_obj p);
  }

  -- The block's own count falls: it keeps the resource as long as the count of shared objects is positive.
  Held-own :
      (h : Heap) (t : Counter)
      → Held p c h
      → not_positive ((try_dispose_com h c t).ctrl c).shrd_refc ≡ false
      → Held p c (try_dispose_com h c t)
  unfolding try_dispose_com decrement settle dispose_resource call_destroy_deallocate call_deleter
  Held-own h shrd s pos = record {
    owner = ground (arith, s.owner, pos);
    alone = λ b nb. ground (arith, s.alone b nb, pos);
    untouched = ground (arith, s.untouched, pos);
  }
  Held-own h weak s pos = record {
    owner = ground (arith, s.owner, pos);
    alone = λ b nb. ground (arith, s.alone b nb, pos);
    untouched = ground (arith, s.untouched, pos);
  }

  -- With no shared object left the deleter is called, once.
  Held-last :
      (h : Heap) (t : Counter)
      → Held p c h
      → not_positive ((try_dispose_com h c t).ctrl c).shrd_refc ≡ true
      → c ≢ 0
      → Deleted p (try_dispose_com h c t)
  unfolding try_dispose_com decrement settle dispose_resource call_destroy_deallocate call_deleter
  Held-last h shrd s none_left hc = record {
    nobody = λ b. ground (arith, s.alone b, none_left, hp);
    once = ground (arith, s.owner, s.untouched, none_left, hp, count-cons h.deleted p p);
  }
  Held-last h weak s none_left hc = record {
    nobody = λ b. ground (arith, s.alone b, none_left, hp);
    once = ground (arith, s.owner, s.untouched, none_left, hp, count-cons h.deleted p p);
  }

  pub Deleted-Turn : {h h' : Heap} → Turn p h h' → Deleted p h → Deleted p h'
  Deleted-Turn (touched t) s = Deleted-Touch t s
  Deleted-Turn (dropped {h' = h'} d k t) s = Deleted-dispose h' d k (Deleted-Touch t s)

  -- What becomes of the resource when the count of its block, or of another one, falls.
  Held-dispose :
      (h : Heap) (d : ℕ) (t : Counter)
      → c ≢ 0
      → Held p c h
      → let h' = try_dispose_com h d t in
        (not_positive (h'.ctrl c).shrd_refc ≡ false → Held p c h') × (Held p c h' ⊎ Deleted p h')
  Held-dispose h d t hc s = elim (Bool-cases (d == c)) [
    | inr e ↦ let r = Held-other h d t (ground (arith, e)) s in (λ pos. r, inl r)
    | inl e ↦
        let same : c ≡ d = ground (arith, e) in
        subst
          (λ x.
            let h' = try_dispose_com h x t in
            (not_positive (h'.ctrl c).shrd_refc ≡ false → Held p c h')
            × (Held p c h' ⊎ Deleted p h'))
          same (own (Bool-cases (not_positive ((try_dispose_com h c t).ctrl c).shrd_refc)))
  ]
    where
      own :
          (not_positive ((try_dispose_com h c t).ctrl c).shrd_refc ≡ true)
            ⊎ (not_positive ((try_dispose_com h c t).ctrl c).shrd_refc ≡ false)
          → let h' = try_dispose_com h c t in
            (not_positive (h'.ctrl c).shrd_refc ≡ false → Held p c h')
            × (Held p c h' ⊎ Deleted p h')
      own (inl e) = (λ pos. Held-own h t s pos, inr (Held-last h t s e hc))
      own (inr e) = (λ pos. Held-own h t s pos, inl (Held-own h t s e))

  pub Held-Turn :
      {h h' : Heap}
      → c ≢ 0
      → Turn p h h'
      → Held p c h
      → (not_positive (h'.ctrl c).shrd_refc ≡ false → Held p c h') × (Held p c h' ⊎ Deleted p h')
  Held-Turn hc (touched t) s = (λ pos. Held-Touch t s, inl (Held-Touch t s))
  Held-Turn hc (dropped {h' = h'} d k t) s = Held-dispose h' d k hc (Held-Touch t s)
