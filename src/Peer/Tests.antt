-- ===== src/Peer/Tests.antt =====
-- Runs of a peer's operations, and the theorems at concrete inputs.
use rakoshare.Base.{
  ℕ, ◌+◌, ◌≡◌, refl, true, false, List, [], ◌∷◌, ◌++◌, length, map, arith, none, some, ok,
  replicate, length-replicate,
}
use rakoshare.Peer.{
  set_choke, set_interested, PeerState, new_peer_state, Message, Queueing, initial_queue, update,
  start, turn, receive, write_messages, read_messages, add_request, cancel_request,
}
use rakoshare.Peer.Frames.{read_messages-write_messages}
use rakoshare.Peer.Requests.{
  IsBounded, perform_all, perform_all-IsBounded, Call, add, cancel, choke, interest,
}
use rakoshare.Peer.Queue.{IsFifo, Turns-IsFifo}

-- A keep-alive, and the message that tells of piece 7.
abbrev two_messages : List Message
two_messages = [] ∷ (4 ∷ 0 ∷ 0 ∷ 0 ∷ 7 ∷ []) ∷ []

bytes_of_two : write_messages two_messages ≡ 0 ∷ 0 ∷ 0 ∷ 0 ∷ 0 ∷ 0 ∷ 0 ∷ 5 ∷ 4 ∷ 0 ∷ 0 ∷ 0 ∷ 7 ∷ []
unfolding write_messages
bytes_of_two = refl

read_messages-write_messages_example :
    read_messages (2 + 1) (write_messages two_messages) ≡ ok (map some two_messages ++ (none ∷ []))
read_messages-write_messages_example =
    read_messages-write_messages two_messages (omega arith, (omega arith, tt))

abbrev large : Message
large = replicate 133121 0

length-large : length large ≡ 133121
length-large = length-replicate {A = ℕ} 133121 0

abbrev calls : List Call
calls = choke false ∷ add 3 0 ∷ add 3 16384 ∷ add 3 0 ∷ cancel 3 0 ∷ interest true ∷ []

table_after_calls : (perform_all calls new_peer_state).peer_requests ≡ 12884918272 ∷ []
unfolding add_request set_interested cancel_request set_choke
table_after_calls = refl

perform_all-IsBounded_example : IsBounded (perform_all calls new_peer_state)
perform_all-IsBounded_example =
    perform_all-IsBounded calls new_peer_state (tt, omega arith, λ q. refl)

abbrev unchoked : PeerState
unchoked = record new_peer_state { am_choking = false }

abbrev one_waits : Queueing
one_waits = record {
  queue = update initial_queue.queue 0 (some (1 ∷ []));
  head = 0 + 1;
  tail = 0;
  received = (1 ∷ []) ∷ [];
  delivered = [];
}

Turns-IsFifo_example : IsFifo one_waits
Turns-IsFifo_example =
    Turns-IsFifo one_waits (turn initial_queue one_waits start (receive (1 ∷ [])))
