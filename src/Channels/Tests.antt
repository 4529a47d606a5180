-- ===== src/Channels/Tests.antt =====
-- Two channels, nodes at 8 and 16, and the values 5 and 6.
use procshared_mem.Base.{◌≡◌, ◌≢◌, refl, Bool, true, false, none, some, List, [], ◌∷◌, arith}
use procshared_mem.OffsetList.{
  Nodes, empty_ends, empty, emplace_back, insert_node_to_back, construct_node,
}
use procshared_mem.Sync.{Result, ok, system_error, CvStatus, no_timeout, timeout}
use procshared_mem.Channels.{
  MsgChannels, construct_channels, construct_lists, apply_call, send, set_list, Call, post, poll,
  run, receive, try_receive, try_receive_until,
}
use procshared_mem.Channels.Held.{Queues}
use procshared_mem.Channels.Refine.{
  queue_call, queue_run, Holds, Served, run-queue_run, construct_channels-Holds,
}
use procshared_mem.Channels.Receive.{
  queue_receive, queues_after, calls_of, ServedTurns, Returns, receive-queue_receive,
}
use procshared_mem.Channels.Until.{queue_receive_until, try_receive_until-queue_receive_until}

abbrev no_nodes : Nodes
no_nodes = record { pre = λ n. 0; nxt = λ n. 0; data_of = λ n. 0; live = λ n. false }

abbrev channels : MsgChannels
channels = construct_channels 2 no_nodes (λ i. empty_ends)

abbrev no_values : Queues
no_values = λ i. []

abbrev calls : List Call
calls = post true 1 8 5 ∷ post true 1 16 6 ∷ poll true 0 ∷ poll true 1 ∷ poll true 7 ∷ []

channels-Holds : Holds channels 2 no_values
channels-Holds = construct_channels-Holds 2 no_nodes (λ i. empty_ends)

calls-Served : Served channels calls
unfolding construct_channels construct_lists apply_call send set_list emplace_back
    insert_node_to_back construct_node
calls-Served = ((omega arith, refl), ((omega arith, refl), (tt, (tt, (tt, tt)))))

answers : (queue_run 2 no_values calls).1 ≡ none ∷ none ∷ none ∷ some 5 ∷ none ∷ []
unfolding queue_run queue_call
answers = refl

run-queue_run_example :
    (m : MsgChannels) × (run channels calls ≡ some (m, (queue_run 2 no_values calls).1))
    × Holds m 2 (queue_run 2 no_values calls).0
run-queue_run_example = run-queue_run channels 2 no_values calls channels-Holds calls-Served

-- The sleeper finds its channel empty, wakes up for no reason, is then woken up in vain, by a value for
-- the other channel, and then by the value 5.
abbrev turns : List (Bool × List Call)
turns =
    (true, poll true 1 ∷ []) ∷ (false, post true 0 16 6 ∷ []) ∷ (false, post true 1 8 5 ∷ []) ∷ []

abbrev more : List (Bool × List Call)
more = (false, poll true 1 ∷ []) ∷ []

abbrev all_turns : List (Bool × List Call)
all_turns =
    (true, poll true 1 ∷ [])
    ∷ (false, post true 0 16 6 ∷ [])
    ∷ (false, post true 1 8 5 ∷ [])
    ∷ (false, poll true 1 ∷ [])
    ∷ []

turns-Served : ServedTurns channels (calls_of all_turns)
unfolding construct_channels construct_lists run apply_call try_receive send set_list emplace_back
    insert_node_to_back construct_node empty
turns-Served = ((tt, tt), (((omega arith, refl), tt), (((omega arith, refl), tt), ((tt, tt), tt))))

value_comes : queues_after turns 2 no_values 1 ≢ []
unfolding queues_after queue_run queue_call
value_comes e = ground (arith, e)

receive-queue_receive_example :
    Returns 2 (receive true all_turns channels 1) (queue_receive all_turns 2 no_values 1)
receive-queue_receive_example =
    receive-queue_receive turns more channels 2 no_values 1 channels-Holds (omega arith)
      turns-Served value_comes

-- The limit comes at the third sleep.
abbrev timed_turns : List (Result CvStatus × List Call)
timed_turns =
    (ok no_timeout, poll true 1 ∷ [])
    ∷ (ok no_timeout, post true 0 16 6 ∷ [])
    ∷ (ok timeout, post true 1 8 5 ∷ [])
    ∷ (system_error 22, poll true 1 ∷ [])
    ∷ []

try_receive_until-queue_receive_until_example :
    Returns 2
      (try_receive_until true timed_turns channels 1)
      (queue_receive_until timed_turns 2 no_values 1)
try_receive_until-queue_receive_until_example =
    try_receive_until-queue_receive_until timed_turns channels 2 no_values 1 channels-Holds
      (omega arith) turns-Served refl
