-- ===== src/Channels/Held.antt =====
-- Memories that hold the channels of given queues, and what one operation on one channel makes of them.
use procshared_mem.Base.{
  ℕ, zero, suc, ◌<◌, ◌≡◌, ◌≢◌, refl, sym, ap, ◌∙◌, subst, inl, inr, true, false, some, List, [],
  ◌∷◌, ◌++◌, ◌⊎◌, ◌==◌, Bool-cases, arith,
}
use procshared_mem.Base.Tally.{update}
use procshared_mem.OffsetList.{
  Nodes, Ends, Lists, empty_ends, empty, emplace_back, push_back, front,
}
use procshared_mem.OffsetList.Chains.{Chain, Apart, AllApart, IsList, Apart-join, AllApart-sym}
use procshared_mem.OffsetList.Splice.{Apart-all}
use procshared_mem.OffsetList.Insert.{push-IsList}
use procshared_mem.OffsetList.Others.{
  Kept, values, values-Kept, IsList-Kept, push_back-Kept, pop_front-IsList,
}
use procshared_mem.OffsetList.Copies.{values-push_back}
use procshared_mem.OffsetList.Moves.{empty-IsList}
use procshared_mem.Channels.{
  MsgChannels, construct_lists, construct_channels, set_list, notify_all, take_front,
}

-- Queues of values by channel number.
abbrev pub Queues : Type 0
Queues = ℕ → List ℕ

-- The channels have the values of `q`, in nodes that no two of them share: those of `ns`.
pub record Held (m : MsgChannels) (q ns : Queues) : Type 0 where
  pub lists : (i : ℕ) → i < m.channel_size_ → IsList m.nodes (m.msgch_ i) (ns i)
  pub contents : (i : ℕ) → i < m.channel_size_ → values m.nodes (ns i) ≡ q i
  pub apart : (i j : ℕ) → i < m.channel_size_ → j < m.channel_size_ → i ≢ j → AllApart (ns i) (ns j)

-- To notify changes none of the lists.
pub Held-notify_all : (m : MsgChannels) (q ns : Queues) → Held m q ns → Held (notify_all m) q ns
Held-notify_all m q ns held = record {
  lists = held.lists;
  contents = held.contents;
  apart = held.apart;
}

-- A new list for the channel `ch`: the changed nodes `ts` and the new list are apart from the others.
module _ (m : MsgChannels) (q ns : Queues) (ch : ℕ) (r : Lists) (ns' vs' ts : List ℕ)
    (held : Held m q ns) (bound : ch < m.channel_size_) (list : IsList r.0 r.1 ns')
    (eq : values r.0 ns' ≡ vs') (kept : Kept m.nodes r.0 ts)
    (touched : (j : ℕ) → j < m.channel_size_ → j ≢ ch → AllApart (ns j) ts)
    (other : (j : ℕ) → j < m.channel_size_ → j ≢ ch → AllApart (ns j) ns') where
  same_test : (i : ℕ) → (i == ch) ≡ true → i ≡ ch
  same_test i e = ground (arith, e)

  not_same : (i : ℕ) → (i == ch) ≡ false → i ≢ ch
  not_same i e = ground (arith, e)

  pub set_list-Held : Held (set_list m ch r) (update q ch vs') (update ns ch ns')
  unfolding set_list
  set_list-Held = record {
    lists = λ i k. elim (Bool-cases (i == ch)) [
      | inl e ↦ rw e list
      | inr e ↦ rw e (
          IsList-Kept m.nodes r.0 ts (m.msgch_ i) (ns i) kept (touched i k (not_same i e))
            (held.lists i k))
    ];
    contents = λ i k. elim (Bool-cases (i == ch)) [
      | inl e ↦ rw e eq
      | inr e ↦ rw e (
          values-Kept m.nodes r.0 ts 0 (ns i) 0 kept (touched i k (not_same i e))
            (held.lists i k).chain
          ∙ held.contents i k)
    ];
    apart = λ i j k l ne. elim (Bool-cases (i == ch)) [
      | inl e ↦ elim (Bool-cases (j == ch)) [
        | inl f ↦ absurd (ne (same_test i e ∙ sym (same_test j f)))
        | inr f ↦ rw (e, f) (AllApart-sym (ns j) ns' (other j l (not_same j f)))
      ]
      | inr e ↦ elim (Bool-cases (j == ch)) [
        | inl f ↦ rw (e, f) (other i k (not_same i e))
        | inr f ↦ rw (e, f) (held.apart i j k l ne)
      ]
    ];
  }

AllApart-join : (ms us vs : List ℕ) → AllApart ms us → AllApart ms vs → AllApart ms (us ++ vs)
AllApart-join [] us vs c d = tt
AllApart-join (m ∷ ms) us vs c d = (Apart-join m us vs c.0 d.0, AllApart-join ms us vs c.1 d.1)

-- An address where no node stands is apart from every list.
not_live-Apart :
    (h : Nodes) (p b : ℕ) (ns : List ℕ) (a : ℕ) → h.live p ≡ false → Chain h b ns a → Apart p ns
not_live-Apart h p b [] a e c = tt
not_live-Apart h p b (n ∷ ns) a e c = (
  λ q. absurd (ground (arith, subst (λ k. h.live k ≡ false) q e, c.1)),
  not_live-Apart h p n ns a e c.4,
)

-- A value sent to a channel goes behind those that wait there.
pub set_list-emplace_back :
    (m : MsgChannels) (q ns : Queues) (ch p v : ℕ)
    → Held m q ns
    → ch < m.channel_size_
    → p ≢ 0
    → m.nodes.live p ≡ false
    → Held
        (set_list m ch (emplace_back m.nodes (m.msgch_ ch) p v).0)
        (update q ch (q ch ++ v ∷ []))
        (update ns ch (ns ch ++ p ∷ []))
unfolding emplace_back push_back
set_list-emplace_back m q ns ch p v held k ne dead =
    let list = held.lists ch k in
    let free = λ (i : ℕ) (l : i < m.channel_size_).
      not_live-Apart m.nodes p 0 (ns i) 0 dead (held.lists i l).chain in
    let ts = ns ch ++ p ∷ [] in
    let other : (j : ℕ) → j < m.channel_size_ → j ≢ ch → AllApart (ns j) ts = λ j l d.
      AllApart-join (ns j) (ns ch) (p ∷ []) (held.apart j ch l k d)
        (Apart-all p (ns j) (free j l)) in
    set_list-Held m q ns ch (push_back m.nodes (m.msgch_ ch) p v) ts (q ch ++ v ∷ []) ts held k
      (push-IsList m.nodes (m.msgch_ ch) (ns ch) p v list ne (free ch k)).1.0
      (values-push_back m.nodes (m.msgch_ ch) (ns ch) p v list ne (free ch k)
        ∙ ap (λ t. t ++ v ∷ []) (held.contents ch k))
      (push_back-Kept m.nodes (m.msgch_ ch) (ns ch) p v list) other other

nodes_cases : (ns : List ℕ) → (ns ≡ []) ⊎ ((n : ℕ) × (ns' : List ℕ) × (ns ≡ n ∷ ns'))
nodes_cases [] = inl refl
nodes_cases (n ∷ ns) = inr (n, ns, refl)

-- A channel whose queue starts with `v` gives `v`, and has the rest of it after that.
abbrev pub Taken : MsgChannels → Queues → ℕ → ℕ → List ℕ → Type 0
Taken m q ch v vs =
    (r : Lists) × (take_front m ch ≡ some (set_list m ch r, v))
    × (ns : Queues) × Held (set_list m ch r) (update q ch vs) ns

take_front-Taken :
    (m : MsgChannels) (q ns : Queues) (ch n : ℕ) (ns' : List ℕ)
    → Held m q ns
    → ch < m.channel_size_
    → ns ch ≡ n ∷ ns'
    → Taken m q ch (m.nodes.data_of n) (values m.nodes ns')
unfolding take_front front
take_front-Taken m q ns ch n ns' held k e =
    let list = subst (IsList m.nodes (m.msgch_ ch)) e (held.lists ch k) in
    let r = pop_front-IsList 2 m.nodes (m.msgch_ ch) n ns' list (omega arith) in
    let touched : (j : ℕ) → j < m.channel_size_ → j ≢ ch → AllApart (ns j) (n ∷ ns') =
      λ j l d. subst (AllApart (ns j)) e (held.apart j ch l k d) in
    let other : (j : ℕ) → j < m.channel_size_ → j ≢ ch → AllApart (ns j) ns' =
      λ j l d. AllApart-rest (ns j) n ns' (touched j l d) in
    (
      r.0.0,
      ground (arith, list.head, list.chain, r.1),
      update ns ch ns',
      set_list-Held m q ns ch r.0.0 ns' (values m.nodes ns') (n ∷ ns') held k r.2 r.3 r.4 touched
          other,
    )
  where
    AllApart-rest : (us : List ℕ) (n : ℕ) (ns : List ℕ) → AllApart us (n ∷ ns) → AllApart us ns
    AllApart-rest [] n ns d = tt
    AllApart-rest (u ∷ us) n ns d = (d.0.1, AllApart-rest us n ns d.1)

-- Whether a channel is empty, and what it gives if not.
pub front_cases :
    (m : MsgChannels) (q ns : Queues) (ch : ℕ)
    → Held m q ns
    → ch < m.channel_size_
    → ((q ch ≡ []) × (empty (m.msgch_ ch) ≡ true))
      ⊎ ((v : ℕ) × (vs : List ℕ) × (q ch ≡ v ∷ vs)
          × (empty (m.msgch_ ch) ≡ false)
          × Taken m q ch v vs)
unfolding empty
front_cases m q ns ch held k = elim (nodes_cases (ns ch)) [
  | inl e ↦
      let list = subst (IsList m.nodes (m.msgch_ ch)) e (held.lists ch k) in
      inl (sym (held.contents ch k) ∙ ap (values m.nodes) e, ground (arith, list.head))
  | inr (n, ns', e) ↦
      let list = subst (IsList m.nodes (m.msgch_ ch)) e (held.lists ch k) in
      inr (
        m.nodes.data_of n,
        values m.nodes ns',
        sym (held.contents ch k) ∙ ap (values m.nodes) e,
        ground (arith, list.head, list.chain),
        take_front-Taken m q ns ch n ns' held k e,
      )
]

construct_lists-empty :
    (n : ℕ) (lists : ℕ → Ends) (i : ℕ) → i < n → construct_lists n lists i ≡ empty_ends
unfolding construct_lists
construct_lists-empty zero lists i k = absurd (omega (arith, k))
construct_lists-empty (suc n) lists i k = elim (Bool-cases (i == n)) [
  | inl e ↦ rw e refl
  | inr e ↦ rw e (construct_lists-empty n lists i (ground (arith, k, e)))
]

-- New channels are empty.
pub construct_channels-Held :
    (n : ℕ) (h : Nodes) (lists : ℕ → Ends) → Held (construct_channels n h lists) (λ i. []) (λ i. [])
unfolding construct_channels
construct_channels-Held n h lists = record {
  lists =
      λ i k. subst (λ l. IsList h l []) (sym (construct_lists-empty n lists i k)) (empty-IsList h);
  contents = λ i k. refl;
  apart = λ i j k l ne. tt;
}
