-- ===== src/Channels/Receive.antt =====
-- The receives that wait: for a message, or for a message or the time limit.
use procshared_mem.Base.{
  ℕ, ◌⊎◌, ◌==◌, ◌||◌, not, Bool, Bool-cases, ◌<◌, ◌≡◌, ◌≢◌, refl, sym, ◌∙◌, subst, inl, inr, true,
  false, some, none, Option, List, [], ◌∷◌, ◌++◌, arith,
}
use procshared_mem.Base.Tally.{update}
use procshared_mem.OffsetList.{empty}
use procshared_mem.Channels.{
  MsgChannels, set_list, take_front, Call, run, Outcome, returned, returning, receive_loop, receive,
}
use procshared_mem.Channels.Held.{Queues, Taken, front_cases}
use procshared_mem.Channels.Refine.{queue_run, Holds, Served, Quiet, run-Quiet}

-- A channel's first value taken off the queues, or what happens where there is none.
abbrev pub or_first {ℓ} :
    {A : Type ℓ} → Queues → ℕ → (ℕ → A) → Option (Queues × A) → Option (Queues × A)
or_first q ch f rest = elim (q ch) [ [] ↦ rest | v ∷ vs ↦ some (update q ch vs, f v) ]

abbrev pub calls_of {ℓ} : {S : Type ℓ} → List (S × List Call) → List (List Call)
calls_of [] = []
calls_of ((status, cs) ∷ turns) = cs ∷ calls_of turns

-- What a waiting receive does to the queues: it takes the first value of its channel as soon as it has
-- the lock and there is one, whether or not it was woken up for no reason before. `none` while there
-- is none.
unfoldable pub queue_receive : List (Bool × List Call) → ℕ → Queues → ℕ → Option (Queues × ℕ)
queue_receive [] n q ch = or_first q ch (λ v. v) none
queue_receive ((spurious, cs) ∷ turns) n q ch =
    let rest = queue_receive turns n (queue_run n q cs).0 ch in or_first q ch (λ v. v) rest

abbrev pub state_after_run : MsgChannels → List Call → MsgChannels
state_after_run m cs = elim (run m cs) [ none ↦ m | some r ↦ r.0 ]

-- The allocator serves the calls of the others, at each turn.
abbrev pub ServedTurns : MsgChannels → List (List Call) → Type 0
ServedTurns m [] = Unit {0}
ServedTurns m (cs ∷ turns) = Served m cs × ServedTurns (state_after_run m cs) turns

unfoldable pub queues_after : List (Bool × List Call) → ℕ → Queues → Queues
queues_after [] n q = q
queues_after ((spurious, cs) ∷ turns) n q = queues_after turns n (queue_run n q cs).0

receive_loop-front :
    (turns : List (Bool × List Call)) (m : MsgChannels) (ch : ℕ) (r : MsgChannels × ℕ)
    → empty (m.msgch_ ch) ≡ false
    → take_front m ch ≡ some r
    → receive_loop true turns m ch ≡ returned r.0 r.1
unfolding receive_loop returning
receive_loop-front [] m ch r e t = ground (arith, e, t)
receive_loop-front ((spurious, cs) ∷ turns) m ch r e t = ground (arith, e, t)

receive_loop-sleep :
    (awake spurious : Bool) (cs : List Call) (turns : List (Bool × List Call)) (m : MsgChannels)
    (ch : ℕ) (r : MsgChannels × List (Option ℕ))
    → empty (m.msgch_ ch) ≡ true
    → run m cs ≡ some r
    → receive_loop awake ((spurious, cs) ∷ turns) m ch
      ≡ receive_loop (spurious || not (r.0.notified == m.notified)) turns r.0 ch
unfolding receive_loop
receive_loop-sleep true spurious cs turns m ch r e t = rw (t, e, receive_loop) refl
receive_loop-sleep false spurious cs turns m ch r e t = rw (t, receive_loop) refl

receive-guard :
    (turns : List (Bool × List Call)) (m : MsgChannels) (ch : ℕ)
    → ch < m.channel_size_
    → receive true turns m ch ≡ receive_loop true turns m ch
unfolding receive
receive-guard turns m ch k = ground (arith, k)

-- What a call that waits, and its model on the queues, come to.
abbrev pub Returns {ℓ} : {A : Type ℓ} → ℕ → Outcome A → Option (Queues × A) → Type ℓ
Returns {A = A} n o s =
    (r : Queues × A) × (m' : MsgChannels) × (s ≡ some r) × (o ≡ returned m' r.1) × Holds m' n r.0

pub or_first-cons {ℓ} :
    {A : Type ℓ} (q : Queues) (ch v : ℕ) (vs : List ℕ) (f : ℕ → A) (rest : Option (Queues × A))
    → q ch ≡ v ∷ vs
    → or_first q ch f rest ≡ some (update q ch vs, f v)
or_first-cons q ch v vs f rest z = rw (z, or_first) refl

pub or_first-nil {ℓ} :
    {A : Type ℓ} (q : Queues) (ch : ℕ) (f : ℕ → A) (rest : Option (Queues × A))
    → q ch ≡ []
    → or_first q ch f rest ≡ rest
or_first-nil q ch f rest z = rw (z, or_first) refl

first_value :
    (turns : List (Bool × List Call)) (n : ℕ) (q : Queues) (ch v : ℕ) (vs : List ℕ)
    → q ch ≡ v ∷ vs
    → queue_receive turns n q ch ≡ some (update q ch vs, v)
unfolding queue_receive
first_value [] n q ch v vs z = or_first-cons q ch v vs (λ v. v) none z
first_value ((spurious, cs) ∷ turns) n q ch v vs z =
    or_first-cons q ch v vs (λ v. v) (queue_receive turns n (queue_run n q cs).0 ch) z

sleep_value :
    (spurious : Bool) (cs : List Call) (turns : List (Bool × List Call)) (n : ℕ) (q : Queues)
    (ch : ℕ)
    → q ch ≡ []
    → queue_receive ((spurious, cs) ∷ turns) n q ch ≡ queue_receive turns n (queue_run n q cs).0 ch
unfolding queue_receive
sleep_value spurious cs turns n q ch z =
    or_first-nil q ch (λ v. v) (queue_receive turns n (queue_run n q cs).0 ch) z

pub Taken-Holds :
    (m : MsgChannels) (n : ℕ) (q : Queues) (ch v : ℕ) (vs : List ℕ)
    → Holds m n q
    → (t : Taken m q ch v vs) → Holds (set_list m ch t.0) n (update q ch vs)
unfolding set_list
Taken-Holds m n q ch v vs s t = record { size = s.size; nodes_of = t.2; held = t.3 }

pub run_state :
    (m : MsgChannels) (cs : List Call) (r : MsgChannels × List (Option ℕ))
    → run m cs ≡ some r
    → state_after_run m cs ≡ r.0
run_state m cs r e = rw (e, state_after_run) refl

front-Returns :
    (turns : List (Bool × List Call)) (m : MsgChannels) (n : ℕ) (q : Queues) (ch v : ℕ)
    (vs : List ℕ)
    → Holds m n q
    → q ch ≡ v ∷ vs
    → empty (m.msgch_ ch) ≡ false
    → Taken m q ch v vs
    → Returns n (receive_loop true turns m ch) (queue_receive turns n q ch)
front-Returns turns m n q ch v vs s z f t = (
  (update q ch vs, v),
  set_list m ch t.0,
  first_value turns n q ch v vs z,
  receive_loop-front turns m ch (set_list m ch t.0, v) f t.1,
  Taken-Holds m n q ch v vs s t,
)

-- Only a thread whose channel is empty sleeps.
abbrev Sleeps : Bool → Queues → ℕ → Type 0
Sleeps awake q ch = (awake ≡ true) ⊎ (q ch ≡ [])

found :
    (awake : Bool) (turns : List (Bool × List Call)) (m : MsgChannels) (n : ℕ) (q : Queues)
    (ch v : ℕ) (vs : List ℕ)
    → Holds m n q
    → Sleeps awake q ch
    → q ch ≡ v ∷ vs
    → empty (m.msgch_ ch) ≡ false
    → Taken m q ch v vs
    → Returns n (receive_loop awake turns m ch) (queue_receive turns n q ch)
found awake turns m n q ch v vs s (inl e) z f t = rw e (front-Returns turns m n q ch v vs s z f t)
found awake turns m n q ch v vs s (inr e) z f t = absurd (cc (e, z))

-- A thread that is not woken up still has an empty channel.
Sleeps-Quiet :
    (spurious : Bool) (m m' : MsgChannels) (q q' : Queues) (ch : ℕ)
    → Quiet m m' q q'
    → q ch ≡ []
    → Sleeps (spurious || not (m'.notified == m.notified)) q' ch
Sleeps-Quiet spurious m m' q q' ch quiet z =
    elim (Bool-cases (spurious || not (m'.notified == m.notified))) [
      | inl e ↦ inl e
      | inr e ↦ inr (quiet.1 ch (ground (arith, e)) z)
    ]

loop-Returns :
    (awake : Bool) (before after : List (Bool × List Call)) (m : MsgChannels) (n : ℕ) (q : Queues)
    (ch : ℕ)
    → Sleeps awake q ch
    → Holds m n q
    → ch < n
    → ServedTurns m (calls_of (before ++ after))
    → queues_after before n q ch ≢ []
    → Returns n (receive_loop awake (before ++ after) m ch) (queue_receive (before ++ after) n q ch)
unfolding queues_after
loop-Returns awake [] after m n q ch a s k d ne =
    elim (front_cases m q s.nodes_of ch s.held (subst (λ t. ch < t) (sym s.size) k)) [
      | inr (v, vs, z, f, t) ↦ found awake after m n q ch v vs s a z f t
      | inl (z, f) ↦ absurd (ne z)
    ]
loop-Returns awake ((spurious, cs) ∷ turns) after m n q ch a s k d ne =
    elim (front_cases m q s.nodes_of ch s.held (subst (λ t. ch < t) (sym s.size) k)) [
      | inr (v, vs, z, f, t) ↦ found awake ((spurious, cs) ∷ turns ++ after) m n q ch v vs s a z f t
      | inl (z, f) ↦
          let r = run-Quiet m n q cs s d.0 in
          let q' = (queue_run n q cs).0 in
          let answers = (queue_run n q cs).1 in
          let next = spurious || not (r.0.notified == m.notified) in
          let rest =
            loop-Returns next turns after r.0 n q' ch (Sleeps-Quiet spurious m r.0 q q' ch r.3 z)
              r.2 k
              (subst (λ t. ServedTurns t (calls_of (turns ++ after)))
                (run_state m cs (r.0, answers) r.1) d.1)
              ne in
          (
            rest.0,
            rest.1,
            sleep_value spurious cs (turns ++ after) n q ch z ∙ rest.2,
            receive_loop-sleep awake spurious cs (turns ++ after) m ch (r.0, answers) f r.1
                ∙ rest.3,
            rest.4,
          )
    ]

-- A receive that waits sleeps until it is notified, by a send to any channel, or wakes up for no reason.
-- It returns once a turn of the other processes' calls leaves a value in its channel, whatever calls
-- come after that: it takes the first value that the channel has when it gets the lock, and the
-- channels hold the queues less that value.
pub receive-queue_receive :
    (before after : List (Bool × List Call)) (m : MsgChannels) (n : ℕ) (q : Queues) (ch : ℕ)
    → Holds m n q
    → ch < n
    → ServedTurns m (calls_of (before ++ after))
    → queues_after before n q ch ≢ []
    → Returns n (receive true (before ++ after) m ch) (queue_receive (before ++ after) n q ch)
receive-queue_receive before after m n q ch s k d ne =
    let r = loop-Returns true before after m n q ch (inl refl) s k d ne in
    (
      r.0,
      r.1,
      r.2,
      receive-guard (before ++ after) m ch (subst (λ t. ch < t) (sym s.size) k) ∙ r.3,
      r.4,
    )
