-- ===== src/Joining/Tests.antt =====
-- A peer that joins a session.
use rakoshare.Base.{◌≡◌, refl, [], replicate, true, none, some, ok}
use rakoshare.Bitset.{Bitset, new}
use rakoshare.Peers.{Net}
use rakoshare.Joining.{BtConn, Host, Joined, hint_new_peer, accept_new_peer}
use rakoshare.Joining.Shares.{ShareHost, hint_share_peer, accept_share_peer}

abbrev no_ports : Net
no_ports = record { split_host_port = λ s. none; atoi = λ s. none }

abbrev one_conn : BtConn
one_conn = record {
  peer = record {
    handle = 1;
    address = "10.0.0.2:700";
    id = "B";
    local_addr = "10.0.0.1:500";
    remote_addr = "10.0.0.2:700";
  };
  header = replicate 48 0;
}

abbrev two_pieces : Bitset
two_pieces = new 2

abbrev one_host : Host
one_host = record {
  peers = record { peer_list = []; closed = [] };
  peer_id = "A";
  piece_set = some two_pieces;
  total_pieces = 2;
  have_torrent = true;
  raw_info_size = 100;
}

unknown_hint : hint_new_peer no_ports "10.0.0.2:700" one_host ≡ true
unfolding hint_new_peer
unknown_hint = refl

own_conn :
    accept_new_peer no_ports (λ n. none) true one_conn (record one_host { peer_id = "B" })
    ≡ ok (Joined.closed, record one_host { peer_id = "B" })
unfolding accept_new_peer
own_conn = refl

abbrev one_share : ShareHost
one_share = record {
  peers = record { peer_list = []; closed = [] };
  peer_id = "B";
  nodes = [];
  new_peers = [];
}

share_hint : hint_share_peer no_ports "10.0.0.2:700" one_share ≡ true
unfolding hint_share_peer
share_hint = refl

share_own_conn :
    accept_share_peer no_ports (λ n. none) true one_conn one_share ≡ (Joined.closed, one_share)
unfolding accept_share_peer
share_own_conn = refl
