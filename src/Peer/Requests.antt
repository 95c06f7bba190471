-- ===== src/Peer/Requests.antt =====
-- The requests of a peer: the table stays within its bound, and a key is read back as the index
-- and the offset it was made from.
use rakoshare.Base.{
  ℕ, ◌+◌, ◌*◌, ◌/◌, ◌%◌, ◌^◌, ◌≤◌, ◌<◌, ◌≡◌, refl, Bool, true, false, not, ◌&&◌, List, [], ◌∷◌,
  length, arith, subst, ==_iff, some, ltb, ◌==◌, if◌then◌else◌, Bool-cases, inl, inr,
  bit_or-shifted,
}
use rakoshare.Peer.{
  PeerState, max_peer_requests, standard_block_length, request_key, member, insert_key, delete_key,
  same, set_choke, set_interested, add_request, cancel_request, remove_request, send_message,
  send_one_char_message,
}

-- No key is twice in the list.
abbrev pub Distinct : List ℕ → Type 0
Distinct [] = Unit
Distinct (k ∷ keys) = (member k keys ≡ false) × Distinct keys

-- The keys of the table are distinct, there are at most `MAX_PEER_REQUESTS`, and a peer that is
-- choked has none.
abbrev pub IsBounded : PeerState → Type 0
IsBounded p =
    Distinct p.peer_requests
    × (length p.peer_requests ≤ max_peer_requests)
    × (p.am_choking ≡ true → p.peer_requests ≡ [])

member-delete_key :
    (key k : ℕ) (keys : List ℕ)
    → member k (delete_key key keys) ≡ (if key == k then false else member k keys)
unfolding delete_key
member-delete_key key k [] = ground arith
member-delete_key key k (x ∷ keys) = ground (arith, member-delete_key key k keys)

length-delete_key : (key : ℕ) (keys : List ℕ) → length (delete_key key keys) ≤ length keys
unfolding delete_key
length-delete_key key [] = omega arith
length-delete_key key (x ∷ keys) = ground (arith, length-delete_key key keys)

delete_key-Distinct : (key : ℕ) (keys : List ℕ) → Distinct keys → Distinct (delete_key key keys)
unfolding delete_key
delete_key-Distinct key [] h = h
delete_key-Distinct key (x ∷ keys) (out, h) = elim (Bool-cases (x == key)) [
  | inl e ↦ rw e (delete_key-Distinct key keys h)
  | inr e ↦ rw e (ground (arith, member-delete_key key x keys), delete_key-Distinct key keys h)
]

add_request-IsBounded :
    (index begin : ℕ) (p : PeerState) → IsBounded p → IsBounded (add_request index begin p)
unfolding add_request
add_request-IsBounded index begin p (d, b, c) =
    elim (Bool-cases (not p.am_choking && ltb (length p.peer_requests) max_peer_requests)) [
      | inr e ↦ rw e (d, b, c)
      | inl e ↦ elim (Bool-cases (member (request_key index begin) p.peer_requests)) [
        | inl f ↦ rw (e, insert_key, f) (d, b, c)
        | inr f ↦ rw (e, insert_key, f) ((f, d), ground arith, λ q. absurd (ground arith))
      ]
    ]

cancel_request-IsBounded :
    (index begin : ℕ) (p : PeerState) → IsBounded p → IsBounded (cancel_request index begin p)
unfolding cancel_request
cancel_request-IsBounded index begin p (d, b, c) =
    elim (Bool-cases (member (request_key index begin) p.peer_requests)) [
      | inr e ↦ rw e (d, b, c)
      | inl e ↦ rw e (
        delete_key-Distinct (request_key index begin) p.peer_requests d,
        omega (arith, length-delete_key (request_key index begin) p.peer_requests),
        λ q. rw (c q) (unfold delete_key in refl),
      )
    ]

set_choke-IsBounded : (choke : Bool) (p : PeerState) → IsBounded p → IsBounded (set_choke choke p)
unfolding set_choke send_one_char_message send_message
set_choke-IsBounded choke p (d, b, c) = elim (Bool-cases (same choke p.am_choking)) [
  | inl e ↦ rw e (d, b, c)
  | inr e ↦ elim (Bool-cases choke) [
    | inl f ↦ rw (e, f) (tt, omega arith, λ q. refl)
    | inr f ↦ rw (e, f) (d, b, λ q. absurd (ground arith))
  ]
]

set_interested-IsBounded :
    (interested : Bool) (p : PeerState) → IsBounded p → IsBounded (set_interested interested p)
unfolding set_interested send_one_char_message send_message
set_interested-IsBounded interested p h = elim (Bool-cases (same interested p.am_interested)) [
  | inl e ↦ rw e h
  | inr e ↦ rw e h
]

-- The calls that a session makes on a peer's state.
pub data Call : Type 0 where
  add : (index begin : ℕ) → Call
  cancel : (index begin : ℕ) → Call
  remove : Call
  choke : Bool → Call
  interest : Bool → Call

abbrev pub perform : Call → PeerState → PeerState
perform (add index begin) p = add_request index begin p
perform (cancel index begin) p = cancel_request index begin p
perform remove p = (remove_request p).1
perform (choke b) p = set_choke b p
perform (interest b) p = set_interested b p

abbrev pub perform_all : List Call → PeerState → PeerState
perform_all [] p = p
perform_all (c ∷ calls) p = perform_all calls (perform c p)

remove_request-state : (p : PeerState) → (remove_request p).1 ≡ p
unfolding remove_request
remove_request-state p = refl

perform-IsBounded : (c : Call) (p : PeerState) → IsBounded p → IsBounded (perform c p)
perform-IsBounded (add index begin) p h = add_request-IsBounded index begin p h
perform-IsBounded (cancel index begin) p h = cancel_request-IsBounded index begin p h
perform-IsBounded remove p h = rw (remove_request-state p) h
perform-IsBounded (choke b) p h = set_choke-IsBounded b p h
perform-IsBounded (interest b) p h = set_interested-IsBounded b p h

-- After any calls of AddRequest, CancelRequest, RemoveRequest, SetChoke and SetInterested on a
-- well-formed state, as a new one is, the keys of the peer's request table are distinct, there are
-- at most `MAX_PEER_REQUESTS` of them, and there are none while the peer is choked.
pub perform_all-IsBounded :
    (calls : List Call) (p : PeerState) → IsBounded p → IsBounded (perform_all calls p)
perform_all-IsBounded [] p h = h
perform_all-IsBounded (c ∷ calls) p h =
    perform_all-IsBounded calls (perform c p) (perform-IsBounded c p h)

-- CancelRequest takes its own key out of the table, where it is in it, and no other key.
member-cancel_request :
    (index begin key : ℕ) (p : PeerState)
    → member key (cancel_request index begin p).peer_requests
      ≡ (if request_key index begin == key then false else member key p.peer_requests)
unfolding cancel_request
member-cancel_request index begin key p =
    elim (Bool-cases (member (request_key index begin) p.peer_requests)) [
      | inl e ↦ rw e (member-delete_key (request_key index begin) key p.peer_requests)
      | inr e ↦ elim (Bool-cases (request_key index begin == key)) [
        | inl f ↦
            let same_key : request_key index begin ≡ key = (==_iff _ _).0 f in
            let gone : member key p.peer_requests ≡ false =
              subst (λ (k : ℕ). member k p.peer_requests ≡ false) same_key e in
            rw (e, f) gone
        | inr f ↦ rw (e, f)
      ]
    ]

-- Where the table is empty and the peer is not choked, RemoveRequest after AddRequest returns the
-- index and the offset of that request, with the length of a whole block, and leaves the request in
-- the table.
remove_request-add_request :
    (index begin : ℕ) (p : PeerState)
    → index < 2 ^ 32
    → begin < 2 ^ 32
    → p.am_choking ≡ false
    → p.peer_requests ≡ []
    → remove_request (add_request index begin p)
      ≡ (some (index, begin, standard_block_length), add_request index begin p)
unfolding remove_request add_request insert_key request_key
remove_request-add_request index begin p hi hb open_peer empty =
    let key = bit_or-shifted 32 index begin hb in
    let high : (index * 2 ^ 32 + begin) / 2 ^ 32 % 2 ^ 32 ≡ index = omega arith in
    let low : (index * 2 ^ 32 + begin) % 2 ^ 32 ≡ begin = omega arith in
    rw (add_request, open_peer, empty, key, high, low)
