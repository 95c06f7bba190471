-- ===== src/Joining/Shares.antt =====
-- control.go: how a peer joins the control session of a share (`hintNewPeer`, `AcceptNewPeer`,
-- `AddPeer`). bencode on the handshake is a parameter; the sends that run beside the call are lists.
use rakoshare.Base.{
  ℕ, ◌≤◌, inl, inr, arith, List, [], ◌∷◌, ◌++◌, length, leb, if◌then◌else◌, String, str_eq, Bool,
  Bool-cases, not, Option,
}
use rakoshare.Peer.{new_peer_state}
use rakoshare.Peers.{Net, Peers, know, add}
use rakoshare.Greeting.{has_extensions, has_dht}
use rakoshare.Joining.{BtConn, Joined, max_num_peers, send_extensions}
use rakoshare.Joining.Bounds.{length-add}

-- `nodes` are the addresses given to the DHT, and `new_peers` what was sent to the channel.
pub record ShareHost : Type 0 where
  pub peers : Peers
  pub peer_id : String
  pub nodes : List String
  pub new_peers : List String

unfoldable pub hint_share_peer : Net → String → ShareHost → Bool
unfolding know
hint_share_peer net peer host = not (know net peer "" host.peers.peer_list)

module _ (net : Net) (encode : ℕ → Option (List ℕ)) where
  unfoldable add_share_peer : BtConn → ShareHost → Joined × ShareHost
  unfolding add send_extensions
  add_share_peer conn host =
      if leb max_num_peers (length host.peers.peer_list)
      then (Joined.closed, host)
      else (let (keep, peers) = add net conn.peer host.peers in
          if not keep then (Joined.not_kept, record host { peers = peers }) else (
            Joined.joined (
                if has_extensions conn.header
                then send_extensions encode 0 new_peer_state
                else new_peer_state),
            record host {
              peers = peers;
              nodes =
                  if has_dht conn.header
                  then host.nodes ++ (conn.peer.address ∷ [])
                  else host.nodes;
              new_peers = host.new_peers ++ (conn.peer.address ∷ []);
            },
          ))

  -- `AcceptNewPeer`, where `written` is whether writing the header succeeds.
  unfoldable pub accept_share_peer : Bool → BtConn → ShareHost → Joined × ShareHost
  unfolding add_share_peer
  accept_share_peer written conn host =
      if str_eq conn.peer.id host.peer_id
      then (Joined.closed, host)
      else if not written
      then (Joined.closed, host)
      else add_share_peer conn host

  -- The session of a share never has more than 60 peers either.
  accept_share_peer-bounded :
      (written : Bool) (conn : BtConn) (host : ShareHost)
      → length host.peers.peer_list ≤ max_num_peers
      → length (accept_share_peer written conn host).1.peers.peer_list ≤ max_num_peers
  unfolding accept_share_peer add_share_peer
  accept_share_peer-bounded written conn host le =
      elim (Bool-cases (str_eq conn.peer.id host.peer_id)) [
        | inl a ↦ rw (accept_share_peer, a) le
        | inr a ↦ elim (Bool-cases written) [
          | inr b ↦ rw (accept_share_peer, a, b) le
          | inl b ↦ elim (Bool-cases (leb max_num_peers (length host.peers.peer_list))) [
            | inl c ↦ rw (accept_share_peer, a, b, add_share_peer, c) le
            | inr c ↦
                let bound : length (add net conn.peer host.peers).1.peer_list ≤ max_num_peers =
                  ground (arith, length-add net conn.peer host.peers) in
                elim (Bool-cases (add net conn.peer host.peers).0) [
                  | inr d ↦ rw (accept_share_peer, a, b, add_share_peer, c, d) bound
                  | inl d ↦ rw (accept_share_peer, a, b, add_share_peer, c, d) bound
                ]
          ]
        ]
      ]
