-- ===== src/Peers/Tests.antt =====
-- Runs of the peer list, and the theorems at concrete inputs.
use rakoshare.Base.{◌≡◌, refl, str_eq, [], ◌∷◌, if◌then◌else◌, true, none, some, pos}
use rakoshare.Peers.{Peer, Peers, Net, add}

-- The addresses of one host and two ports of this one.
abbrev two_ports : Net
two_ports = record {
  split_host_port = λ s.
      if str_eq s "10.0.0.2:700"
      then some ("10.0.0.2", "700")
      else if str_eq s "10.0.0.1:500"
      then some ("10.0.0.1", "500")
      else if str_eq s "10.0.0.1:400"
      then some ("10.0.0.1", "400")
      else none;
  atoi = λ s.
      if str_eq s "700"
      then some (pos 700)
      else if str_eq s "500"
      then some (pos 500)
      else if str_eq s "400"
      then some (pos 400)
      else none;
}

abbrev old_peer : Peer
old_peer = record {
  handle = 1;
  address = "10.0.0.2:700";
  id = "a";
  local_addr = "10.0.0.1:500";
  remote_addr = "10.0.0.2:700";
}

abbrev new_peer : Peer
new_peer = record {
  handle = 2;
  address = "10.0.0.2:700";
  id = "a";
  local_addr = "10.0.0.1:400";
  remote_addr = "10.0.0.2:700";
}

-- The duplicate is closed and stays in the list.
duplicate_stays :
    add two_ports new_peer (record { peer_list = old_peer ∷ []; closed = [] })
    ≡ (true, record { peer_list = old_peer ∷ new_peer ∷ []; closed = 1 ∷ [] })
unfolding add
duplicate_stays = refl

kept : (add two_ports new_peer (record { peer_list = old_peer ∷ []; closed = [] })).0 ≡ true
unfolding add
kept = refl

abbrev far_peer : Peer
far_peer = record new_peer { handle = 3; address = "10.0.0.9:80" }

abbrev three : Peers
three = record { peer_list = old_peer ∷ far_peer ∷ []; closed = [] }
