-- ===== src/Joining.antt =====
-- torrent.go: how a peer joins a session (`hintNewPeer`, `AcceptNewPeer`, `AddPeer`) and what it is
-- sent first (`SendExtensions` of peer.go). bencode on the handshake is a parameter. The goroutines
-- of the peer start once it has joined. The session of a share is in Shares.
pub mod Bounds
pub mod Shares
mod Tests
use rakoshare.Base.{
  ℕ, zero, suc, ◌+◌, List, [], ◌∷◌, ◌++◌, length, leb, if◌then◌else◌, String, str_eq, Bool, true,
  false, not, Option, none, some, Run, ok, panic, ◌>>=◌,
}
use rakoshare.Bitset.{Bitset, new}
use rakoshare.Peer.{PeerState, Message, new_peer_state, send_message, send_bitfield}
use rakoshare.Peers.{Net, Peer, Peers, know, add}
use rakoshare.Greeting.{has_extensions}

abbrev pub max_num_peers : ℕ
max_num_peers = 60

-- A connection whose header was read: the 48 bytes of it.
pub record BtConn : Type 0 where
  pub peer : Peer
  pub header : List ℕ

-- What of a session `AddPeer` reads and changes; the set of pieces is `none` while it is nil.
pub record Host : Type 0 where
  pub peers : Peers
  pub peer_id : String
  pub piece_set : Option Bitset
  pub total_pieces : ℕ
  pub have_torrent : Bool
  pub raw_info_size : ℕ

-- What becomes of a connection.
pub data Joined : Type 0 where
  closed unwritten not_kept : Joined
  joined : PeerState → Joined

-- A nil set panics.
unfoldable pub send_pieces : Option Bitset → PeerState → Run PeerState
unfolding send_bitfield
send_pieces none p = panic
send_pieces (some bits) p = ok (send_bitfield bits p)

unfoldable pub hint_new_peer : Net → String → Host → Bool
unfolding know
hint_new_peer net peer host = not (know net peer "" host.peers.peer_list)

-- `encode` is bencode on the handshake with the size of the metadata, `none` for an error.
module _ (encode : ℕ → Option (List ℕ)) where
  unfoldable pub send_extensions : ℕ → PeerState → PeerState
  unfolding send_message
  send_extensions size p = elim (encode size) [
    | none ↦ p
    | some bytes ↦ send_message (20 ∷ 0 ∷ bytes) p
  ]

  unfoldable pub first_messages : List ℕ → Host → PeerState → Run PeerState
  unfolding send_extensions send_pieces
  first_messages header host p =
      if has_extensions header
      then (if host.have_torrent
          then send_pieces host.piece_set (send_extensions host.raw_info_size p)
          else ok (send_extensions host.raw_info_size p))
      else send_pieces host.piece_set p

module _ (net : Net) (encode : ℕ → Option (List ℕ)) where
  unfoldable pub add_peer : BtConn → Host → Run (Joined × Host)
  unfolding add first_messages new
  add_peer conn host =
      if leb max_num_peers (length host.peers.peer_list)
      then ok (closed, host)
      else (let (keep, peers) = add net conn.peer host.peers in
          let host' = record host { peers = peers } in
          if not keep
          then ok (not_kept, host')
          else (first_messages encode conn.header host' new_peer_state >>= λ p. ok (
            joined
                (if host.have_torrent then record p { have = some (new host.total_pieces) } else p),
            host',
          )))

  -- `AcceptNewPeer`, where `written` is whether writing the header succeeds.
  unfoldable pub accept_new_peer : Bool → BtConn → Host → Run (Joined × Host)
  unfolding add_peer
  accept_new_peer written conn host =
      if str_eq conn.peer.id host.peer_id
      then ok (closed, host)
      else if not written
      then ok (unwritten, host)
      else add_peer conn host
