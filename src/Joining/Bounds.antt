-- ===== src/Joining/Bounds.antt =====
-- A session never has more peers than its limit.
use rakoshare.Base.{
  ℕ, ◌+◌, ◌≤◌, ◌<◌, ◌≡◌, refl, ◌∙◌, inl, inr, List, [], ◌∷◌, ◌++◌, length, length-append,
  length-take, length-set, get_or, set, take, arith, leb, if◌then◌else◌, str_eq, Bool, true, false,
  Bool-cases, Option-cases, Option, none, some, ok, panic,
}
use rakoshare.Bitset.{Bitset, new}
use rakoshare.Peer.{PeerState, new_peer_state, send_bitfield}
use rakoshare.Peers.{Net, Peer, Peers, get_conn_info, scan, remove_old, add}
use rakoshare.Greeting.{has_extensions}
use rakoshare.Joining.{
  BtConn, Host, Joined, max_num_peers, send_pieces, send_extensions, first_messages, add_peer,
  accept_new_peer,
}

length-remove_old :
    (indices : List ℕ) (peers : List Peer) (closed : List ℕ)
    → length (remove_old indices (record { peer_list = peers; closed = closed })).peer_list
      ≡ length peers
unfolding remove_old
length-remove_old [] peers closed = refl
length-remove_old (i ∷ indices) [] closed = refl
length-remove_old (i ∷ indices) (p ∷ peers) closed =
    let old = get_or (p ∷ peers) i p in
    let moved = set (p ∷ peers) i (get_or (p ∷ peers) (length peers) p) in
    length-remove_old indices (take (length moved) moved) (closed ++ (old.handle ∷ []))
    ∙ omega (
      arith,
      length-take (length moved) moved,
      length-set (p ∷ peers) i (get_or (p ∷ peers) (length peers) p),
    )

-- `Add` makes the list longer by one at most.
pub length-add :
    (net : Net) (peer : Peer) (lp : Peers)
    → length (add net peer lp).1.peer_list ≤ length lp.peer_list + 1
unfolding add
length-add net peer lp = elim (Option-cases (get_conn_info net peer)) [
  | inl e ↦ rw (add, e) (omega arith)
  | inr (this, e) ↦ elim (Option-cases (scan net this 0 lp.peer_list)) [
    | inl f ↦ rw (add, e, f) (omega arith)
    | inr (indices, f) ↦
        let left = (remove_old indices lp).peer_list in
        rw (add, e, f)
          (omega (
            arith,
            length-append left (peer ∷ []),
            length-remove_old indices lp.peer_list lp.closed,
          ))
  ]
]

first_messages-ok :
    (encode : ℕ → Option (List ℕ)) (header : List ℕ) (host : Host) (p : PeerState) (bits : Bitset)
    → host.piece_set ≡ some bits
    → (p' : PeerState) × (first_messages encode header host p ≡ ok p')
unfolding first_messages send_pieces
first_messages-ok encode header host p bits e = elim (Bool-cases (has_extensions header)) [
  | inr f ↦ (send_bitfield bits p, rw (first_messages, f, e) refl)
  | inl f ↦ elim (Bool-cases host.have_torrent) [
    | inl g ↦ (
      send_bitfield bits (send_extensions encode host.raw_info_size p),
      rw (first_messages, f, g, e) refl,
    )
    | inr g ↦ (send_extensions encode host.raw_info_size p, rw (first_messages, f, g) refl)
  ]
]

-- Where the session has a set of pieces and no more than 60 peers, `AcceptNewPeer` returns, and the
-- session has no more than 60 peers then.
accept_new_peer-bounded :
    (net : Net) (encode : ℕ → Option (List ℕ)) (written : Bool) (conn : BtConn) (host : Host)
    (bits : Bitset)
    → host.piece_set ≡ some bits
    → length host.peers.peer_list ≤ max_num_peers
    → (result : Joined) × (host' : Host) × (accept_new_peer net encode written conn host
        ≡ ok (result, host'))
      × (length host'.peers.peer_list ≤ max_num_peers)
unfolding accept_new_peer add_peer
accept_new_peer-bounded net encode written conn host bits e le =
    elim (Bool-cases (str_eq conn.peer.id host.peer_id)) [
      | inl a ↦ (Joined.closed, host, rw (accept_new_peer, a) refl, le)
      | inr a ↦ elim (Bool-cases written) [
        | inr b ↦ (Joined.unwritten, host, rw (accept_new_peer, a, b) refl, le)
        | inl b ↦ elim (Bool-cases (leb max_num_peers (length host.peers.peer_list))) [
          | inl c ↦ (Joined.closed, host, rw (accept_new_peer, a, b, add_peer, c) refl, le)
          | inr c ↦
              let added = add net conn.peer host.peers in
              let host' = record host { peers = added.1 } in
              let bound : length added.1.peer_list ≤ max_num_peers =
                ground (arith, length-add net conn.peer host.peers) in
              elim (Bool-cases added.0) [
                | inr d ↦
                    (Joined.not_kept, host', rw (accept_new_peer, a, b, add_peer, c, d) refl, bound)
                | inl d ↦
                    let (p, f) = first_messages-ok encode conn.header host' new_peer_state bits e in
                    (
                      Joined.joined (
                          if host.have_torrent
                          then record p { have = some (new host.total_pieces) }
                          else p),
                      host',
                      rw (accept_new_peer, a, b, add_peer, c, d, f) refl,
                      bound,
                    )
              ]
        ]
      ]
    ]

-- A session without a torrent is stopped by a peer that it keeps and whose header lacks the bit of the
-- extension protocol.
accept_new_peer-panic :
    (net : Net) (encode : ℕ → Option (List ℕ)) (conn : BtConn) (host : Host)
    → str_eq conn.peer.id host.peer_id ≡ false
    → length host.peers.peer_list < max_num_peers
    → (add net conn.peer host.peers).0 ≡ true
    → has_extensions conn.header ≡ false
    → host.piece_set ≡ none
    → accept_new_peer net encode true conn host ≡ panic
unfolding accept_new_peer add_peer first_messages send_pieces
accept_new_peer-panic net encode conn host a lt keep plain e =
    let room : leb max_num_peers (length host.peers.peer_list) ≡ false = ground arith in
    rw (accept_new_peer, a, add_peer, room, keep, first_messages, plain, send_pieces, e) refl
