-- ===== src/Channels/Refine.antt =====
-- Any run of calls on the channels, against a queue of values for each channel number.
use procshared_mem.Base.{
  ◌≤◌, ◌⊎◌, sym, ◌==◌, ℕ, ◌<◌, ◌≡◌, ◌≢◌, refl, ap, ◌∙◌, subst, inl, inr, Bool, true, false, ◌&&◌,
  some, none, Option, List, [], ◌∷◌, ◌++◌, ltb, Bool-cases, if◌then◌else◌, arith,
}
use procshared_mem.Base.Tally.{update}
use procshared_mem.OffsetList.{Nodes, Ends, empty, emplace_back}
use procshared_mem.Channels.{
  MsgChannels, construct_channels, set_list, notify_all, take_front, send, try_receive, Call, post,
  poll, apply_call, run,
}
use procshared_mem.Channels.Held.{
  Queues, Held, construct_channels-Held, Held-notify_all, set_list-emplace_back, front_cases,
}

-- What a call does to the queues, and its answer: a send puts its value behind the others, a receive
-- takes the first one. Through a null `p_msgch_`, or on a number that is no channel's, it does nothing.
unfoldable pub queue_call : ℕ → Queues → Call → Queues × Option ℕ
queue_call n q (post p_msgch ch p v) =
    if p_msgch && ltb ch n then (update q ch (q ch ++ v ∷ []), none) else (q, none)
queue_call n q (poll p_msgch ch) =
    let taken : Queues × Option ℕ = elim (q ch) [
      | [] ↦ (q, none)
      | v ∷ vs ↦ (update q ch vs, some v)
    ] in
    if p_msgch && ltb ch n then taken else (q, none)

unfoldable pub queue_run : ℕ → Queues → List Call → Queues × List (Option ℕ)
queue_run n q [] = (q, [])
queue_run n q (c ∷ cs) = let r = queue_call n q c in let s = queue_run n r.0 cs in (s.0, r.1 ∷ s.1)

-- The channels hold the queues, in some nodes.
pub record Holds (m : MsgChannels) (n : ℕ) (q : Queues) : Type 0 where
  pub size : m.channel_size_ ≡ n
  pub nodes_of : Queues
  pub held : Held m q nodes_of

-- The address for the node of a value is not null, and no node stands there.
abbrev pub Fresh : MsgChannels → Call → Type 0
Fresh m (post p_msgch ch p v) = (p ≢ 0) × (m.nodes.live p ≡ false)
Fresh m (poll p_msgch ch) = Unit {0}

abbrev pub state_after : MsgChannels → Call → MsgChannels
state_after m c = elim (apply_call m c) [ none ↦ m | some r ↦ r.0 ]

-- The allocator answers such an address to every call of a run.
abbrev pub Served : MsgChannels → List Call → Type 0
Served m [] = Unit {0}
Served m (c ∷ cs) = Fresh m c × Served (state_after m c) cs

-- The two tests that every operation starts with.
abbrev pub guard : Bool → MsgChannels → ℕ → Bool
guard p_msgch m ch = p_msgch && ltb ch m.channel_size_

pub send-guard :
    (p_msgch : Bool) (m : MsgChannels) (ch p v : ℕ)
    → send p_msgch m ch p v ≡ (
        if guard p_msgch m ch
        then notify_all (set_list m ch (emplace_back m.nodes (m.msgch_ ch) p v).0)
        else m)
unfolding send
send-guard true m ch p v = ground arith
send-guard false m ch p v = refl

pub try_receive-guard :
    (p_msgch : Bool) (m : MsgChannels) (ch : ℕ)
    → guard p_msgch m ch ≡ false
    → try_receive p_msgch m ch ≡ some (m, none)
unfolding try_receive
try_receive-guard true m ch e = ground (arith, e)
try_receive-guard false m ch e = refl

pub try_receive-empty :
    (p_msgch : Bool) (m : MsgChannels) (ch : ℕ)
    → empty (m.msgch_ ch) ≡ true
    → try_receive p_msgch m ch ≡ some (m, none)
unfolding try_receive
try_receive-empty true m ch e = ground (arith, e)
try_receive-empty false m ch e = refl

pub try_receive-front :
    (p_msgch : Bool) (m : MsgChannels) (ch : ℕ) (r : MsgChannels × ℕ)
    → guard p_msgch m ch ≡ true
    → empty (m.msgch_ ch) ≡ false
    → take_front m ch ≡ some r
    → try_receive p_msgch m ch ≡ some (r.0, some r.1)
unfolding try_receive
try_receive-front true m ch r e f t = ground (arith, e, f, t)
try_receive-front false m ch r e f t = absurd (ground (arith, e))

-- A channel that was empty is so after calls that notified nobody.
abbrev pub Quiet : MsgChannels → MsgChannels → (q q' : Queues) → Type 0
Quiet m m' q q' =
    (m.notified ≤ m'.notified) × ((ch : ℕ) → m'.notified ≡ m.notified → q ch ≡ [] → q' ch ≡ [])

list_cases : (l : List ℕ) → (l ≡ []) ⊎ ((v : ℕ) × (vs : List ℕ) × (l ≡ v ∷ vs))
list_cases [] = inl refl
list_cases (v ∷ vs) = inr (v, vs, refl)

post-Quiet :
    (m : MsgChannels) (n : ℕ) (q : Queues) (p_msgch : Bool) (ch p v : ℕ)
    → guard p_msgch m ch ≡ (p_msgch && ltb ch n)
    → Quiet m (send p_msgch m ch p v) q (queue_call n q (post p_msgch ch p v)).0
unfolding queue_call set_list
post-Quiet m n q p_msgch ch p v g =
    rw (send-guard p_msgch m ch p v, g)
      (elim (Bool-cases (p_msgch && ltb ch n)) [
        | inl e ↦ rw e (omega arith, λ c h z. absurd (omega (arith, h)))
        | inr e ↦ rw e (omega arith, λ c h z. z)
      ])

poll-empty :
    (n : ℕ) (q : Queues) (p_msgch : Bool) (ch c : ℕ)
    → q c ≡ []
    → (queue_call n q (poll p_msgch ch)).0 c ≡ []
unfolding queue_call
poll-empty n q p_msgch ch c z = elim (Bool-cases (p_msgch && ltb ch n)) [
  | inr e ↦ rw e z
  | inl e ↦ elim (list_cases (q ch)) [
    | inl y ↦ rw (e, y) z
    | inr (v, vs, y) ↦
        rw (e, y)
          (elim (Bool-cases (c == ch)) [
            | inr d ↦ rw d z
            | inl d ↦
                let same : c ≡ ch = ground (arith, d) in
                let nil : q ch ≡ [] = ap q (sym same) ∙ z in cc (y, nil)
          ])
  ]
]

module _ (m : MsgChannels) (n : ℕ) (q : Queues) (s : Holds m n q) where
  bound : (p_msgch : Bool) (ch : ℕ) → (p_msgch && ltb ch n) ≡ true → ch < m.channel_size_
  bound true ch e = ground (arith, e, s.size)
  bound false ch e = absurd (ground (arith, e))

  pub guard_lem : (p_msgch : Bool) (ch : ℕ) → guard p_msgch m ch ≡ (p_msgch && ltb ch n)
  guard_lem p_msgch ch = ap (λ k. p_msgch && ltb ch k) s.size

  post_lem :
      (p_msgch : Bool) (ch p v : ℕ)
      → Fresh m (post p_msgch ch p v)
      → Holds (send p_msgch m ch p v) n (queue_call n q (post p_msgch ch p v)).0
  unfolding queue_call set_list
  post_lem p_msgch ch p v fresh =
      rw (send-guard p_msgch m ch p v, guard_lem p_msgch ch)
        (elim (Bool-cases (p_msgch && ltb ch n)) [
          | inl e ↦ rw e (record {
            size = s.size;
            nodes_of = update s.nodes_of ch (s.nodes_of ch ++ p ∷ []);
            held =
                Held-notify_all (set_list m ch (emplace_back m.nodes (m.msgch_ ch) p v).0)
                  (update q ch (q ch ++ v ∷ [])) (update s.nodes_of ch (s.nodes_of ch ++ p ∷ []))
                  (set_list-emplace_back m q s.nodes_of ch p v s.held (bound p_msgch ch e) fresh.0
                    fresh.1);
          })
          | inr e ↦ rw e s
        ])

  poll_lem :
      (p_msgch : Bool) (ch : ℕ)
      → (r : MsgChannels × Option ℕ) × (try_receive p_msgch m ch ≡ some r)
        × (r.1 ≡ (queue_call n q (poll p_msgch ch)).1)
        × Holds r.0 n (queue_call n q (poll p_msgch ch)).0
        × (r.0.notified ≡ m.notified)
  unfolding queue_call set_list
  poll_lem p_msgch ch = elim (Bool-cases (p_msgch && ltb ch n)) [
    | inr e ↦ (
      (m, none),
      try_receive-guard p_msgch m ch (guard_lem p_msgch ch ∙ e),
      rw e refl,
      rw e s,
      refl,
    )
    | inl e ↦ elim (front_cases m q s.nodes_of ch s.held (bound p_msgch ch e)) [
      | inl (z, f) ↦
          ((m, none), try_receive-empty p_msgch m ch f, rw (e, z) refl, rw (e, z) s, refl)
      | inr (v, vs, z, f, t) ↦ (
        (set_list m ch t.0, some v),
        try_receive-front p_msgch m ch (set_list m ch t.0, v) (guard_lem p_msgch ch ∙ e) f t.1,
        rw (e, z) refl,
        rw (e, z) (record { size = s.size; nodes_of = t.2; held = t.3 }),
        refl,
      )
    ]
  ]

  post_answer : (p_msgch : Bool) (ch p v : ℕ) → none ≡ (queue_call n q (post p_msgch ch p v)).1
  unfolding queue_call
  post_answer p_msgch ch p v = elim (Bool-cases (p_msgch && ltb ch n)) [
    | inl e ↦ rw e refl
    | inr e ↦ rw e refl
  ]

  pub apply_call-queue_call :
      (c : Call)
      → Fresh m c
      → (r : MsgChannels × Option ℕ) × (apply_call m c ≡ some r)
        × (r.1 ≡ (queue_call n q c).1)
        × Holds r.0 n (queue_call n q c).0
        × Quiet m r.0 q (queue_call n q c).0
  unfolding apply_call
  apply_call-queue_call (post p_msgch ch p v) fresh = (
    (send p_msgch m ch p v, none),
    refl,
    post_answer p_msgch ch p v,
    post_lem p_msgch ch p v fresh,
    post-Quiet m n q p_msgch ch p v (guard_lem p_msgch ch),
  )
  apply_call-queue_call (poll p_msgch ch) fresh =
      let r = poll_lem p_msgch ch in
      (r.0, r.1, r.2, r.3, (omega (arith, r.4), λ c h z. poll-empty n q p_msgch ch c z))

pub run-cons :
    (m : MsgChannels) (c : Call) (cs : List Call) (r : MsgChannels × Option ℕ)
    (t : MsgChannels × List (Option ℕ))
    → apply_call m c ≡ some r
    → run r.0 cs ≡ some t
    → run m (c ∷ cs) ≡ some (t.0, r.1 ∷ t.1)
unfolding run
run-cons m c cs r t e f = ground (arith, e, f)

Quiet-trans :
    (x y z : MsgChannels) (q q' q'' : Queues) → Quiet x y q q' → Quiet y z q' q'' → Quiet x z q q''
Quiet-trans x y z q q' q'' a b = (
  omega (arith, a.0, b.0),
  λ ch e nil. b.1 ch (omega (arith, a.0, b.0, e)) (a.1 ch (omega (arith, a.0, b.0, e)) nil),
)

pub run-Quiet :
    (m : MsgChannels) (n : ℕ) (q : Queues) (cs : List Call)
    → Holds m n q
    → Served m cs
    → (m' : MsgChannels) × (run m cs ≡ some (m', (queue_run n q cs).1))
      × Holds m' n (queue_run n q cs).0
      × Quiet m m' q (queue_run n q cs).0
unfolding run queue_run
run-Quiet m n q [] s d = (m, refl, s, (omega arith, λ ch e z. z))
run-Quiet m n q (c ∷ cs) s d =
    let r = apply_call-queue_call m n q s c d.0 in
    let after : state_after m c ≡ r.0.0 = rw (r.1, state_after) refl in
    let q' = (queue_call n q c).0 in
    let rest = run-Quiet r.0.0 n q' cs r.3 (subst (λ t. Served t cs) after d.1) in
    let e = run-cons m c cs r.0 (rest.0, (queue_run n q' cs).1) r.1 rest.1 in
    (
      rest.0,
      e ∙ ap (λ a. some (rest.0, a ∷ (queue_run n q' cs).1)) r.2,
      rest.2,
      Quiet-trans m r.0.0 rest.0 q q' (queue_run n q' cs).0 r.4 rest.3,
    )

-- Any run of sends and receives by the processes that share the channels, each call with the lock from
-- its start to its end, and each node at an address where no node stands, has a result: it answers what
-- a queue of values for each channel number answers, and the channels hold these queues after it.
pub run-queue_run :
    (m : MsgChannels) (n : ℕ) (q : Queues) (cs : List Call)
    → Holds m n q
    → Served m cs
    → (m' : MsgChannels) × (run m cs ≡ some (m', (queue_run n q cs).1))
      × Holds m' n (queue_run n q cs).0
run-queue_run m n q cs s d = let r = run-Quiet m n q cs s d in (r.0, r.1, r.2)

-- New channels hold empty queues.
pub construct_channels-Holds :
    (n : ℕ) (h : Nodes) (lists : ℕ → Ends) → Holds (construct_channels n h lists) n (λ i. [])
unfolding construct_channels
construct_channels-Holds n h lists = record {
  size = refl;
  nodes_of = λ i. [];
  held = construct_channels-Held n h lists;
}
