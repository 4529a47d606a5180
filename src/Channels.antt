-- ===== src/Channels.antt =====
-- The message channels of libipsm_mem/src/ipsm_malloc.cpp: one list of values for each channel, in a
-- memory of nodes that the channels share. A value is the address that its `offset_ptr<void>` points
-- at, 0 for null. An operation holds the mutex from its first read to its last write, so calls come one
-- after another; `p_msgch` tells whether the caller's `p_msgch_` is other than null. The address at
-- which the allocator puts the node of a value is a part of the call. An operation that reads a null
-- pointer or a node that was destroyed has no result.
pub mod Held
pub mod Refine
pub mod Receive
pub mod Until
mod Tests
use procshared_mem.Base.{
  ℕ, zero, suc, ◌+◌, ◌*◌, ◌^◌, ◌%◌, ◌≡◌, Bool, true, false, not, ◌&&◌, ◌||◌, Option, none, some,
  List, [], ◌∷◌, ◌==◌, leb, if◌then◌else◌,
}
use procshared_mem.Base.Word.{word_mod, add_word, sub_word}
use procshared_mem.Base.Tally.{update}
use procshared_mem.Sync.{Result, ok, system_error, CvStatus, no_timeout, timeout}
use procshared_mem.OffsetList.{
  Nodes, Ends, Lists, empty_ends, empty, emplace_back, front, pop_front,
}

-- `msg_channels`: `channel_size_` and `msgch_`, with the nodes of all its lists, and how often `cond_` was
-- notified.
pub record MsgChannels : Type 0 where
  pub channel_size_ : ℕ
  pub nodes : Nodes
  pub msgch_ : ℕ → Ends
  pub notified : ℕ

-- `msg_channels::calc_required_bytes`, of the sizes of `msg_channels` and of one list.
unfoldable pub calc_required_bytes : ℕ → ℕ → ℕ → ℕ
calc_required_bytes sizeof_channels sizeof_list n =
    add_word sizeof_channels ((sizeof_list * n) % word_mod)

-- The length that the constructor of `ipsm_malloc` asks for.
unfoldable pub actual_request_length : ℕ → ℕ → ℕ → ℕ
actual_request_length length required alignof_channels =
    add_word (add_word length required) alignof_channels

-- What the set-up functor answers of the channels at `p_msgch_setup` in a memory at `p_mem`, and where a
-- process finds them that has the memory at `p_mem` and this value.
unfoldable pub channels_offset : ℕ → ℕ → ℕ
channels_offset p_msgch_setup p_mem = sub_word p_msgch_setup p_mem

unfoldable pub find_channels : ℕ → ℕ → ℕ
find_channels p_mem hint_value = add_word p_mem hint_value

-- The loop of the constructor, over whatever the memory holds.
unfoldable pub construct_lists : ℕ → (ℕ → Ends) → ℕ → Ends
construct_lists zero lists = lists
construct_lists (suc i) lists = update (construct_lists i lists) i empty_ends

unfoldable pub construct_channels : ℕ → Nodes → (ℕ → Ends) → MsgChannels
construct_channels n h lists = record {
  channel_size_ = n;
  nodes = h;
  msgch_ = construct_lists n lists;
  notified = 0;
}

unfoldable pub set_list : MsgChannels → ℕ → Lists → MsgChannels
set_list m ch r = record m { nodes = r.0; msgch_ = update m.msgch_ ch r.1 }

unfoldable pub channel_size : Bool → MsgChannels → ℕ
channel_size p_msgch m = if p_msgch then m.channel_size_ else 0

-- `cond_.notify_all()`, which is here a part of the call that `send` makes under the mutex; the source
-- calls it when the mutex is free again.
abbrev pub notify_all : MsgChannels → MsgChannels
notify_all m = record m { notified = m.notified + 1 }

unfoldable pub send : Bool → MsgChannels → ℕ → ℕ → ℕ → MsgChannels
send p_msgch m ch p sending_value =
    if not p_msgch
    then m
    else if leb m.channel_size_ ch
    then m
    else notify_all (set_list m ch (emplace_back m.nodes (m.msgch_ ch) p sending_value).0)

-- The first value of a channel, taken off it: `front` and `pop_front`, as every receive ends.
unfoldable pub take_front : MsgChannels → ℕ → Option (MsgChannels × ℕ)
take_front m ch = elim (front m.nodes (m.msgch_ ch)) [
  | none ↦ none
  | some v ↦ elim (pop_front 2 m.nodes (m.msgch_ ch)) [
    | none ↦ none
    | some r ↦ some (set_list m ch r.0, v)
  ]
]

unfoldable pub try_receive : Bool → MsgChannels → ℕ → Option (MsgChannels × Option ℕ)
try_receive p_msgch m ch =
    if not p_msgch
    then some (m, none)
    else if leb m.channel_size_ ch
    then some (m, none)
    else if empty (m.msgch_ ch)
    then some (m, none)
    else elim (take_front m ch) [ none ↦ none | some r ↦ some (r.0, some r.1) ]

-- A call by some thread of some process.
pub data Call : Type 0 where
  post : Bool → ℕ → ℕ → ℕ → Call
  poll : Bool → ℕ → Call

unfoldable pub apply_call : MsgChannels → Call → Option (MsgChannels × Option ℕ)
apply_call m (post p_msgch ch p v) = some (send p_msgch m ch p v, none)
apply_call m (poll p_msgch ch) = try_receive p_msgch m ch

-- Calls in the order in which they get the mutex, and what each answers.
unfoldable pub run : MsgChannels → List Call → Option (MsgChannels × List (Option ℕ))
run m [] = some (m, [])
run m (c ∷ cs) = elim (apply_call m c) [
  | none ↦ none
  | some r ↦ elim (run r.0 cs) [ none ↦ none | some s ↦ some (s.0, r.1 ∷ s.1) ]
]

-- What comes of a call that waits: it has not been woken up for the last time yet, it returns, or it
-- reads what is not there.
pub data Outcome {ℓ} (A : Type ℓ) : Type ℓ where
  asleep : MsgChannels → Outcome A
  returned : MsgChannels → A → Outcome A
  undefined : Outcome A

unfoldable pub returning {ℓ κ} :
    {A : Type ℓ} {B : Type κ} → (A → B) → Option (MsgChannels × A) → Outcome B
returning f none = undefined
returning f (some r) = returned r.0 (f r.1)

-- The loop of `wait` with the predicate `!empty()`, and the receive behind it. The thread is awake, with
-- the mutex, or asleep. For each time that it sleeps: whether it is woken up for no reason, and the calls
-- of the others in that time. It wakes up where one of these notifies, and otherwise sleeps on.
unfoldable pub receive_loop : Bool → List (Bool × List Call) → MsgChannels → ℕ → Outcome ℕ
receive_loop awake [] m ch =
    if awake && not (empty (m.msgch_ ch)) then returning (λ v. v) (take_front m ch) else asleep m
receive_loop awake ((spurious, cs) ∷ turns) m ch =
    let rest : Outcome ℕ = elim (run m cs) [
      | none ↦ undefined
      | some r ↦ receive_loop (spurious || not (r.0.notified == m.notified)) turns r.0 ch
    ] in
    if awake && not (empty (m.msgch_ ch)) then returning (λ v. v) (take_front m ch) else rest

unfoldable pub receive : Bool → List (Bool × List Call) → MsgChannels → ℕ → Outcome ℕ
receive p_msgch turns m ch =
    if not p_msgch
    then returned m 0
    else if leb m.channel_size_ ch
    then returned m 0
    else receive_loop true turns m ch

-- What `wait_until` answers a thread that has the mutex again: after a time-out the predicate is read
-- once more, and an exception goes on.
unfoldable pub after_wait :
    Result CvStatus → MsgChannels → ℕ → Outcome (Result (Option ℕ)) → Outcome (Result (Option ℕ))
after_wait (ok no_timeout) m ch again = again
after_wait (ok timeout) m ch again =
    if empty (m.msgch_ ch)
    then returned m (ok none)
    else returning (λ v. ok (some v)) (take_front m ch)
after_wait (system_error e) m ch again = returned m (system_error e)

-- The same with a time limit: for each wait what `wait_until` answers, and the calls of the others
-- in that time.
unfoldable pub receive_until_loop :
    List (Result CvStatus × List Call) → MsgChannels → ℕ → Outcome (Result (Option ℕ))
receive_until_loop [] m ch =
    if empty (m.msgch_ ch) then asleep m else returning (λ v. ok (some v)) (take_front m ch)
receive_until_loop ((status, cs) ∷ turns) m ch =
    let rest : Outcome (Result (Option ℕ)) = elim (run m cs) [
      | none ↦ undefined
      | some r ↦ after_wait status r.0 ch (receive_until_loop turns r.0 ch)
    ] in
    if empty (m.msgch_ ch) then rest else returning (λ v. ok (some v)) (take_front m ch)

unfoldable pub try_receive_until :
    Bool → List (Result CvStatus × List Call) → MsgChannels → ℕ → Outcome (Result (Option ℕ))
try_receive_until p_msgch turns m ch =
    if not p_msgch
    then returned m (ok none)
    else if leb m.channel_size_ ch
    then returned m (ok none)
    else receive_until_loop turns m ch
