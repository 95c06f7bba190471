-- ===== src/Pex/Tests.antt =====
-- Runs of the peer exchange, and the theorems at concrete inputs.
use rakoshare.Base.{
  length, ◌<◌, ◌+◌, ◌≡◌, str_eq, refl, List, [], ◌∷◌, take, get_or, ◌==◌, if◌then◌else◌, none, ok,
}
use rakoshare.Peers.{Net, Peer}
use rakoshare.Pex.{Addresses, PexPeer, max_peers, pex_round, string_to_peers}
use rakoshare.Pex.Round.{fresh, entries, pex_round-fresh}

-- Two addresses and their binary forms.
abbrev addresses : Addresses
addresses = record {
  to_binary = λ address.
      if str_eq address "10.0.0.1:80"
      then 10 ∷ 0 ∷ 0 ∷ 1 ∷ 0 ∷ 80 ∷ []
      else 10 ∷ 0 ∷ 0 ∷ 2 ∷ 0 ∷ 81 ∷ [];
  of_binary = λ bytes. if get_or bytes 3 0 == 1 then "10.0.0.1:80" else "10.0.0.2:81";
}

abbrev net : Net
net = record { split_host_port = λ address. none; atoi = λ s. none }

abbrev known_peer : Peer
known_peer = record {
  handle = 1;
  address = "10.0.0.1:80";
  id = "a";
  local_addr = "";
  remote_addr = "";
}

abbrev new_peer : Peer
new_peer = record {
  handle = 2;
  address = "10.0.0.2:81";
  id = "b";
  local_addr = "";
  remote_addr = "";
}

abbrev last : List PexPeer
last = record { address = "10.0.0.1:80"; id = "a" } ∷ []

pex_round-fresh_example :
    (string_to_peers net addresses
        (max_peers + 1)
        (pex_round net addresses last (known_peer ∷ new_peer ∷ [])).0.added
      ≡ ok (take max_peers (fresh last (known_peer ∷ new_peer ∷ []))))
    × (length (fresh last (known_peer ∷ new_peer ∷ [])) < max_peers
        → (pex_round net addresses last (known_peer ∷ new_peer ∷ [])).1
          ≡ entries (known_peer ∷ new_peer ∷ []))
pex_round-fresh_example =
    pex_round-fresh net addresses last (known_peer ∷ new_peer ∷ []) ((refl, refl), tt)
