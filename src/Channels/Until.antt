-- ===== src/Channels/Until.antt =====
-- The receive with a time limit.
use procshared_mem.Base.{
  ℕ, ◌<◌, ◌≡◌, sym, ◌∙◌, subst, inl, inr, refl, Bool, true, false, some, none, ◌||◌, Option, List,
  [], ◌∷◌, arith,
}
use procshared_mem.Base.Tally.{update}
use procshared_mem.Sync.{Result, ok, system_error, CvStatus, no_timeout, timeout}
use procshared_mem.OffsetList.{empty}
use procshared_mem.Channels.{
  MsgChannels, set_list, take_front, Call, run, Outcome, returned, returning, after_wait,
  receive_until_loop, try_receive_until,
}
use procshared_mem.Channels.Held.{Queues, front_cases}
use procshared_mem.Channels.Refine.{queue_run, Holds, run-queue_run}
use procshared_mem.Channels.Receive.{
  or_first, or_first-cons, or_first-nil, Taken-Holds, run_state, ServedTurns, Returns, calls_of,
}

abbrev pub got : ℕ → Result (Option ℕ)
got v = ok (some v)

-- What it does to the queues after a wait: at the limit it takes the first value of its channel, or
-- answers none; an exception leaves the queues.
unfoldable pub queue_after_wait :
    Result CvStatus
    → Queues
    → ℕ
    → Option (Queues × Result (Option ℕ))
    → Option (Queues × Result (Option ℕ))
queue_after_wait (ok no_timeout) q ch again = again
queue_after_wait (ok timeout) q ch again = or_first q ch got (some (q, ok none))
queue_after_wait (system_error e) q ch again = some (q, system_error e)

-- It takes the first value of its channel as soon as it has the lock and there is one.
unfoldable pub queue_receive_until :
    List (Result CvStatus × List Call) → ℕ → Queues → ℕ → Option (Queues × Result (Option ℕ))
queue_receive_until [] n q ch = or_first q ch got none
queue_receive_until ((status, cs) ∷ turns) n q ch =
    let q' = (queue_run n q cs).0 in
    or_first q ch got (queue_after_wait status q' ch (queue_receive_until turns n q' ch))

-- The wait that answers this is the last one.
abbrev pub is_last : Result CvStatus → Bool
is_last (ok no_timeout) = false
is_last (ok timeout) = true
is_last (system_error e) = true

abbrev pub some_last : List (Result CvStatus × List Call) → Bool
some_last [] = false
some_last ((status, cs) ∷ turns) = is_last status || some_last turns

module _ (m : MsgChannels) (ch : ℕ) where
  until-front :
      (t : Result CvStatus × List Call) (turns : List (Result CvStatus × List Call))
      (r : MsgChannels × ℕ)
      → empty (m.msgch_ ch) ≡ false
      → take_front m ch ≡ some r
      → receive_until_loop (t ∷ turns) m ch ≡ returned r.0 (got r.1)
  unfolding receive_until_loop returning
  until-front (status, cs) turns r e t = rw (e, t, receive_until_loop) refl

  until-sleep :
      (status : Result CvStatus) (cs : List Call) (turns : List (Result CvStatus × List Call))
      (r : MsgChannels × List (Option ℕ))
      → empty (m.msgch_ ch) ≡ true
      → run m cs ≡ some r
      → receive_until_loop ((status, cs) ∷ turns) m ch
        ≡ after_wait status r.0 ch (receive_until_loop turns r.0 ch)
  unfolding receive_until_loop
  until-sleep status cs turns r e t = rw (e, t, receive_until_loop) refl

  timeout-front :
      (r : MsgChannels × ℕ) (again : Outcome (Result (Option ℕ)))
      → empty (m.msgch_ ch) ≡ false
      → take_front m ch ≡ some r
      → after_wait (ok timeout) m ch again ≡ returned r.0 (got r.1)
  unfolding after_wait returning
  timeout-front r again e t = rw (e, t, after_wait) refl

  timeout-empty :
      (again : Outcome (Result (Option ℕ)))
      → empty (m.msgch_ ch) ≡ true
      → after_wait (ok timeout) m ch again ≡ returned m (ok none)
  unfolding after_wait
  timeout-empty again e = rw (e, after_wait) refl

-- The end of a wait.
wait-Returns :
    (status : Result CvStatus) (m : MsgChannels) (n : ℕ) (q : Queues) (ch : ℕ)
    (again : Outcome (Result (Option ℕ))) (q_again : Option (Queues × Result (Option ℕ)))
    → Holds m n q
    → ch < n
    → (is_last status ≡ false → Returns n again q_again)
    → Returns n (after_wait status m ch again) (queue_after_wait status q ch q_again)
unfolding after_wait queue_after_wait
wait-Returns (ok no_timeout) m n q ch again q_again s k r = r refl
wait-Returns (system_error e) m n q ch again q_again s k r = ((q, system_error e), m, refl, refl, s)
wait-Returns (ok timeout) m n q ch again q_again s k r =
    elim (front_cases m q s.nodes_of ch s.held (subst (λ t. ch < t) (sym s.size) k)) [
      | inr (v, vs, z, f, t) ↦ (
        (update q ch vs, got v),
        set_list m ch t.0,
        or_first-cons q ch v vs got (some (q, ok none)) z,
        timeout-front m ch (set_list m ch t.0, v) again f t.1,
        Taken-Holds m n q ch v vs s t,
      )
      | inl (z, f) ↦ (
        (q, ok none),
        m,
        or_first-nil q ch got (some (q, ok none)) z,
        timeout-empty m ch again f,
        s,
      )
    ]

until-Returns :
    (turns : List (Result CvStatus × List Call)) (m : MsgChannels) (n : ℕ) (q : Queues) (ch : ℕ)
    → Holds m n q
    → ch < n
    → ServedTurns m (calls_of turns)
    → some_last turns ≡ true
    → Returns n (receive_until_loop turns m ch) (queue_receive_until turns n q ch)
unfolding queue_receive_until
until-Returns [] m n q ch s k d t = absurd (ground (arith, t))
until-Returns ((status, cs) ∷ turns) m n q ch s k d late =
    let q' = (queue_run n q cs).0 in
    let q_again = queue_receive_until turns n q' ch in
    let r = run-queue_run m n q cs s d.0 in
    let a = (queue_run n q cs).1 in
    elim (front_cases m q s.nodes_of ch s.held (subst (λ t. ch < t) (sym s.size) k)) [
      | inr (v, vs, z, f, t) ↦ (
        (update q ch vs, got v),
        set_list m ch t.0,
        or_first-cons q ch v vs got (queue_after_wait status q' ch q_again) z,
        until-front m ch (status, cs) turns (set_list m ch t.0, v) f t.1,
        Taken-Holds m n q ch v vs s t,
      )
      | inl (z, f) ↦
          let w =
            wait-Returns status r.0 n q' ch (receive_until_loop turns r.0 ch) q_again r.2 k (λ e.
              until-Returns turns r.0 n q' ch r.2 k
                (subst (λ t. ServedTurns t (calls_of turns)) (run_state m cs (r.0, a) r.1) d.1)
                (ground (arith, e, late))) in
          (
            w.0,
            w.1,
            or_first-nil q ch got (queue_after_wait status q' ch q_again) z ∙ w.2,
            until-sleep m ch status cs turns (r.0, a) f r.1 ∙ w.3,
            w.4,
          )
    ]

-- A receive with a time limit returns, or throws the exception of its wait, at the latest with the first
-- wait that ends at the limit or throws: it takes the first value that its channel has when it gets the
-- lock, and answers none only where the channel is still empty at the limit. The channels hold the
-- queues that this leaves, also where it throws.
pub try_receive_until-queue_receive_until :
    (turns : List (Result CvStatus × List Call)) (m : MsgChannels) (n : ℕ) (q : Queues) (ch : ℕ)
    → Holds m n q
    → ch < n
    → ServedTurns m (calls_of turns)
    → some_last turns ≡ true
    → Returns n (try_receive_until true turns m ch) (queue_receive_until turns n q ch)
unfolding try_receive_until
try_receive_until-queue_receive_until turns m n q ch s k d t =
    let r = until-Returns turns m n q ch s k d t in
    let e : try_receive_until true turns m ch ≡ receive_until_loop turns m ch =
      ground (arith, s.size, k) in
    (r.0, r.1, r.2, e ∙ r.3, r.4)
