-- ===== src/Peer.antt =====
-- peer.go: the state of one peer, its request tables, and the framing of messages on its
-- connection. A message is a list of bytes, a byte a number below 256. A map with `uint64` keys is
-- a list of its entries, in the order in which the run ranges over it.
pub mod Frames
pub mod Requests
pub mod Queue
mod Tests
use rakoshare.Base.{
  ℕ, ◌≡◌, zero, suc, ◌+◌, ◌-◌, ◌*◌, ◌/◌, ◌%◌, ◌^◌, bit_or, Bool, true, false, not, ◌&&◌, List, [],
  ◌∷◌, ◌++◌, length, take, drop, get_or, replicate, ltb, ◌==◌, if◌then◌else◌, Option, none, some,
  Run, ok, panic, out_of_fuel, ◌>>=◌,
}
use rakoshare.Bitset.{Bitset, bytes}

abbrev pub Message : Type 0
Message = List ℕ

abbrev pub max_peer_requests : ℕ
max_peer_requests = 10

abbrev pub standard_block_length : ℕ
standard_block_length = 16 * 1024

-- The largest payload that `peerReader` accepts.
abbrev pub max_payload : ℕ
max_payload = 130 * 1024

-- `binary.BigEndian.PutUint32`
unfoldable pub put_uint32 : ℕ → List ℕ
put_uint32 x = x / 2 ^ 24 % 256 ∷ x / 2 ^ 16 % 256 ∷ x / 2 ^ 8 % 256 ∷ x % 256 ∷ []

-- `binary.BigEndian.Uint32` on a slice of four bytes at least.
unfoldable pub uint32 : List ℕ → ℕ
uint32 bytes =
    ((get_or bytes 0 0 * 256 + get_or bytes 1 0) * 256 + get_or bytes 2 0) * 256 + get_or bytes 3 0

-- What `peerWriter` writes for one message: `uint32(len(msg))`, then the message.
unfoldable pub frame : Message → List ℕ
unfolding put_uint32
frame msg = put_uint32 (length msg % 2 ^ 32) ++ msg

-- What `peerWriter` writes for the messages of its channel, no write of which fails.
unfoldable pub write_messages : List Message → List ℕ
unfolding frame
write_messages [] = []
write_messages (msg ∷ msgs) = frame msg ++ write_messages msgs

-- `io.ReadFull` on a connection that delivers these bytes and ends: the bytes and the rest.
unfoldable pub read_full : ℕ → List ℕ → Option (List ℕ × List ℕ)
read_full n stream = if ltb (length stream) n then none else some (take n stream, drop n stream)

-- The loop of `peerReader`: what it sends on its channel, `none` for the nil message.
unfoldable pub read_messages : ℕ → List ℕ → Run (List (Option Message))
unfolding read_full
read_messages zero stream = out_of_fuel
read_messages (suc fuel) stream = elim (read_full 4 stream) [
  | none ↦ ok (none ∷ [])
  | some (size, rest) ↦
      let n = uint32 size in
      elim (ltb max_payload n) [
        | true ↦ ok (none ∷ [])
        | false ↦ elim (read_full n rest) [
          | none ↦ ok (none ∷ [])
          | some (buf, rest') ↦ read_messages fuel rest' >>= λ messages. ok (some buf ∷ messages)
        ]
      ]
]

-- `(uint64(index) << 32) | uint64(begin)`, for an index of 32 bits.
unfoldable pub request_key : ℕ → ℕ → ℕ
request_key index begin = bit_or (index * 2 ^ 32) begin

-- `our_requests` keeps with a key the time of the request; `sent` is what the peer's state has put
-- into `writeChan`, in order. `temporary_bitfield` is `none` where the code stores nil.
pub record PeerState : Type 0 where
  pub have : Option Bitset
  pub am_choking : Bool
  pub am_interested : Bool
  pub peer_choking : Bool
  pub peer_interested : Bool
  pub peer_requests : List ℕ
  pub our_requests : List (ℕ × ℕ)
  pub can_receive_bitfield : Bool
  pub temporary_bitfield : Option (List ℕ)
  pub closed : Bool
  pub sent : List Message

abbrev pub new_peer_state : PeerState
new_peer_state = record {
  have = none;
  am_choking = true;
  am_interested = false;
  peer_choking = true;
  peer_interested = false;
  peer_requests = [];
  our_requests = [];
  can_receive_bitfield = true;
  temporary_bitfield = none;
  closed = false;
  sent = [];
}

-- A key that is in a map.
abbrev pub member : ℕ → List ℕ → Bool
member key [] = false
member key (k ∷ keys) = if k == key then true else member key keys

-- `m[key] = true`
unfoldable pub insert_key : ℕ → List ℕ → List ℕ
insert_key key keys = if member key keys then keys else key ∷ keys

-- `delete(m, key)`
unfoldable pub delete_key : ℕ → List ℕ → List ℕ
delete_key key [] = []
delete_key key (k ∷ keys) = let rest = delete_key key keys in if k == key then rest else k ∷ rest

unfoldable pub send_message : Message → PeerState → PeerState
send_message msg p = record p { sent = p.sent ++ (msg ∷ []) }

unfoldable pub send_one_char_message : ℕ → PeerState → PeerState
unfolding send_message
send_one_char_message b p = send_message (b ∷ []) p

abbrev pub same : Bool → Bool → Bool
same true b = b
same false b = not b

unfoldable pub set_choke : Bool → PeerState → PeerState
unfolding send_one_char_message
set_choke choke p =
    if same choke p.am_choking
    then p
    else (if choke
        then send_one_char_message 0 (record p { am_choking = true; peer_requests = [] })
        else send_one_char_message 1 (record p { am_choking = false }))

unfoldable pub set_interested : Bool → PeerState → PeerState
unfolding send_one_char_message
set_interested interested p =
    if same interested p.am_interested
    then p
    else send_one_char_message (if interested then 2 else 3)
        (record p { am_interested = interested })

unfoldable pub add_request : ℕ → ℕ → PeerState → PeerState
unfolding request_key insert_key
add_request index begin p =
    if not p.am_choking && ltb (length p.peer_requests) max_peer_requests
    then record p { peer_requests = insert_key (request_key index begin) p.peer_requests }
    else p

unfoldable pub cancel_request : ℕ → ℕ → PeerState → PeerState
unfolding request_key delete_key
cancel_request index begin p =
    if member (request_key index begin) p.peer_requests
    then record p { peer_requests = delete_key (request_key index begin) p.peer_requests }
    else p

-- Index, begin and length of the first key of the range, and the peer's state after the call.
unfoldable pub remove_request : PeerState → Option (ℕ × ℕ × ℕ) × PeerState
remove_request p =
    let first : Option (ℕ × ℕ × ℕ) = elim p.peer_requests [
      | [] ↦ none
      | k ∷ keys ↦ some (k / 2 ^ 32 % 2 ^ 32, k % 2 ^ 32, standard_block_length)
    ] in
    (first, p)

unfoldable pub send_bitfield : Bitset → PeerState → PeerState
unfolding send_message
send_bitfield bs p = send_message (5 ∷ bytes bs) p

-- The variables of `queueingWriter`: `queue` is the map, `received` what the loop has taken from
-- `in` and `delivered` what it has put into `out`.
pub record Queueing : Type 0 where
  pub queue : ℕ → Option Message
  pub head : ℕ
  pub tail : ℕ
  pub received : List Message
  pub delivered : List (Option Message)

abbrev pub initial_queue : Queueing
initial_queue = record { queue = λ k. none; head = 0; tail = 0; received = []; delivered = [] }

-- `queue[key] = m`, or `delete(queue, key)` for `none`.
unfoldable pub update : (ℕ → Option Message) → ℕ → Option Message → ℕ → Option Message
update queue key m k = if k == key then m else queue k

-- One turn of the loop of `queueingWriter`: either case of its `select` may be taken, the second
-- only where the queue is not empty.
pub data Turn (s : Queueing) : Queueing → Type 0 where
  receive :
      (m : Message)
      → Turn s record {
        queue = update s.queue s.head (some m);
        head = s.head + 1;
        tail = s.tail;
        received = s.received ++ (m ∷ []);
        delivered = s.delivered;
      }
  deliver :
      (s.head == s.tail) ≡ false
      → Turn s record {
        queue = update s.queue s.tail none;
        head = s.head;
        tail = s.tail + 1;
        received = s.received;
        delivered = s.delivered ++ (s.queue s.tail ∷ []);
      }

pub data Turns (s : Queueing) : Queueing → Type 0 where
  start : Turns s s
  turn : (t u : Queueing) → Turns s t → Turn t u → Turns s u
