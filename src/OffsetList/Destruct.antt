-- ===== src/OffsetList/Destruct.antt =====
-- What the loop of `erase` and `clear` destroys, and what `erase` links behind it.
use procshared_mem.Base.{
  ℕ, zero, suc, ◌<◌, ◌≡◌, ◌≢◌, refl, sym, ap, ◌∙◌, subst, false, some, List, [], ◌∷◌, ◌==◌, length,
  if◌then◌else◌, arith,
}
use procshared_mem.OffsetList.{Nodes, Ends, Lists, destruct_node, destruct_until, close_gap}
use procshared_mem.OffsetList.Chains.{
  first, Chain, Apart, AllApart, Distinct, Apart-null, relink_same,
}

-- The nodes `ms` destroyed.
abbrev pub destructed : Nodes → List ℕ → Nodes
destructed h [] = h
destructed h (n ∷ ms) = destructed (destruct_node h n) ms

abbrev pub Dead : Nodes → List ℕ → Type 0
Dead h [] = Unit {0}
Dead h (n ∷ ms) = (h.live n ≡ false) × Dead h ms

Chain-destruct_node :
    (h : Nodes) (n b : ℕ) (ns : List ℕ) (a : ℕ)
    → Apart n ns
    → Chain h b ns a
    → Chain (destruct_node h n) b ns a
unfolding destruct_node
Chain-destruct_node h n b ns a ap ch =
    relink_same h (destruct_node h n) (n ∷ []) 0 0 b ns a
      (λ k e. (ground (arith, e), λ q. ground arith, λ q. ground arith)) ch (each n ns ap)
      (Apart-null h b ns a ch) (Apart-null h b ns a ch)
  where
    each : (n : ℕ) (ns : List ℕ) → Apart n ns → AllApart ns (n ∷ [])
    each n [] d = tt
    each n (k ∷ ns) d = ((λ e. d.0 (sym e), tt), each n ns d.1)

-- The loop ends at the node behind the run, with fuel for each node and one more.
pub destruct_until-Chain :
    (fuel : ℕ) (h : Nodes) (b : ℕ) (ms : List ℕ) (c : ℕ)
    → Chain h b ms c
    → Distinct ms
    → Apart c ms
    → length ms < fuel
    → destruct_until fuel h (first ms c) c ≡ some (destructed h ms)
unfolding destruct_until
destruct_until-Chain zero h b ms c ch d ac k = absurd (omega (arith, k))
destruct_until-Chain (suc fuel) h b [] c ch d ac k = ground arith
destruct_until-Chain (suc fuel) h b (n ∷ ms) c ch d ac k =
    let rest =
      destruct_until-Chain fuel (destruct_node h n) n ms c (Chain-destruct_node h n n ms c d.0 ch.4)
        d.1 ac.1 (omega (arith, k)) in
    let e =
      subst (λ q. destruct_until fuel (destruct_node h n) q c ≡ some (destructed h (n ∷ ms)))
        (sym ch.3) rest in
    ground (arith, e, ch, ac)

module _ (h : Nodes) (k : ℕ) where
  destruct_node-same :
      (n : ℕ)
      → ((destruct_node h k).pre n ≡ h.pre n)
        × ((destruct_node h k).nxt n ≡ h.nxt n)
        × ((destruct_node h k).data_of n ≡ h.data_of n)
        × (n ≢ k → (destruct_node h k).live n ≡ h.live n)
  unfolding destruct_node
  destruct_node-same n = (ground arith, ground arith, ground arith, λ e. ground (arith, e))

pub destructed-same :
    (h : Nodes) (ms : List ℕ) (n : ℕ)
    → ((destructed h ms).pre n ≡ h.pre n)
      × ((destructed h ms).nxt n ≡ h.nxt n)
      × ((destructed h ms).data_of n ≡ h.data_of n)
      × (Apart n ms → (destructed h ms).live n ≡ h.live n)
destructed-same h [] n = (refl, refl, refl, λ a. refl)
destructed-same h (m ∷ ms) n =
    let r = destructed-same (destruct_node h m) ms n in
    let s = destruct_node-same h m n in (r.0 ∙ s.0, r.1 ∙ s.1, r.2 ∙ s.2, λ a. r.3 a.1 ∙ s.3 a.0)

pub Dead-destructed :
    (h : Nodes) (b : ℕ) (ms : List ℕ) (c : ℕ)
    → Chain h b ms c
    → Distinct ms
    → Dead (destructed h ms) ms
unfolding destruct_node
Dead-destructed h b [] c ch d = tt
Dead-destructed h b (n ∷ ms) c ch d = (
  (destructed-same (destruct_node h n) ms n).3 d.0 ∙ ground (arith, ch),
  Dead-destructed (destruct_node h n) n ms c (Chain-destruct_node h n n ms c d.0 ch.4) d.1,
)

pub Dead-same :
    (h h' : Nodes) (ms : List ℕ) → ((n : ℕ) → h'.live n ≡ h.live n) → Dead h ms → Dead h' ms
Dead-same h h' [] e d = tt
Dead-same h h' (n ∷ ms) e d = (e n ∙ d.0, Dead-same h h' ms e d.1)

-- What `erase` makes of the list once the nodes between `lu` and `c` are destroyed.
unfoldable pub Closed : Nodes → Ends → Lists × ℕ → ℕ → ℕ → Type 0
Closed h l r lu c =
    ((n : ℕ)
      → (r.0.0.live n ≡ h.live n)
        × (n ≢ lu → r.0.0.nxt n ≡ h.nxt n)
        × (n ≢ c → r.0.0.pre n ≡ h.pre n)
        × (r.0.0.data_of n ≡ h.data_of n))
    × (lu ≢ 0 → r.0.0.nxt lu ≡ c)
    × (c ≢ 0 → r.0.0.pre c ≡ lu)
    × (r.0.1.head ≡ (if lu == 0 then c else l.head))
    × (r.0.1.tail ≡ (if c == 0 then lu else l.tail))
    × (r.1 ≡ c)

pub close_gap-Closed : (h : Nodes) (l : Ends) (lu c : ℕ) → Closed h l (close_gap h l lu c) lu c
unfolding Closed close_gap
close_gap-Closed h l lu c = (
  λ n. (ground arith, λ e. ground (arith, e), λ e. ground (arith, e), ground arith),
  λ e. ground (arith, e),
  λ e. ground (arith, e),
  ground arith,
  ground arith,
  ground arith,
)
