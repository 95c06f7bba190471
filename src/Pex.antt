-- ===== src/Pex.antt =====
-- pex.go: the peers that a session tells the others of, each minute, and how it reads such a message.
-- The binary form of an address is a parameter. The message is modelled before bencode.
pub mod Round
mod Tests
use rakoshare.Base.{
  ℕ, zero, suc, ◌+◌, ◌-◌, bit_and, String, str_eq, List, [], ◌∷◌, ◌++◌, length, take, drop, map,
  ltb, leb, ◌==◌, if◌then◌else◌, Bool, true, false, not, ◌&&◌, Option, none, some, Run, ok, panic,
  out_of_fuel, ◌>>=◌,
}
use rakoshare.Peers.{Net, Peer, know}

abbrev pub peer_len : ℕ
peer_len = 6

abbrev pub max_peers : ℕ
max_peers = 50

-- `nettools.DottedPortToBinary` and `nettools.BinaryToDottedPort`
pub record Addresses : Type 0 where
  pub to_binary : String → List ℕ
  pub of_binary : List ℕ → String

pub record PexPeer : Type 0 where
  pub address : String
  pub id : String

pub record Flag : Type 0 where
  pub supports_encryption : Bool
  pub is_seed : Bool
  pub supports_hole_punching : Bool
  pub supports_utp : Bool

abbrev pub has_feature : ℕ → ℕ → Bool
has_feature b feature = bit_and b feature == feature

unfoldable pub new_flag : ℕ → Flag
new_flag b = record {
  supports_encryption = has_feature b 1;
  is_seed = has_feature b 2;
  supports_hole_punching = has_feature b 8;
  supports_utp = has_feature b 4;
}

unfoldable pub string_to_flags : List ℕ → List Flag
unfolding new_flag
string_to_flags [] = []
string_to_flags (b ∷ bytes) = new_flag b ∷ string_to_flags bytes

abbrev pub contains : List PexPeer → Peer → Bool
contains [] peer = false
contains (p ∷ all) peer =
    if str_eq peer.id p.id && str_eq peer.address p.address then true else contains all peer

pub record PexMessage : Type 0 where
  pub added : List ℕ
  pub added_f : List ℕ
  pub dropped : List ℕ

module _ (net : Net) (addresses : Addresses) where
  -- The first loop of `StartPex` from `numadded` on: the new list of last peers, and the addresses that
  -- are added.
  unfoldable pub add_peers : ℕ → List PexPeer → List Peer → List PexPeer × List String
  add_peers numadded last [] = ([], [])
  add_peers numadded last (p ∷ peers) =
      let rest = add_peers numadded last peers in
      let next = add_peers (numadded + 1) last peers in
      let entry : PexPeer = record { address = p.address; id = p.id } in
      if contains last p
      then (entry ∷ rest.0, rest.1)
      else if leb max_peers (numadded + 1)
      then (entry ∷ [], p.address ∷ [])
      else (entry ∷ next.0, p.address ∷ next.1)

  unfoldable pub to_string : List String → List ℕ
  to_string [] = []
  to_string (address ∷ list) = addresses.to_binary address ++ to_string list

  -- The second loop.
  unfoldable pub dropped_peers : List Peer → List PexPeer → List ℕ
  dropped_peers peers [] = []
  dropped_peers peers (p ∷ last) =
      let rest = dropped_peers peers last in
      if know net p.address p.id peers then rest else addresses.to_binary p.address ++ rest

  -- One round of `StartPex`: the message, which every peer is sent, and the new list.
  unfoldable pub pex_round : List PexPeer → List Peer → PexMessage × List PexPeer
  unfolding add_peers to_string dropped_peers
  pex_round last peers =
      let (new_last, added) = add_peers 0 last peers in
      (
        record {
          added = to_string added;
          added_f = map (λ address. 0) added;
          dropped = dropped_peers peers last;
        },
        new_last,
      )

  -- The loop of `stringToPeers`; a slice past the end panics.
  unfoldable pub string_to_peers : ℕ → List ℕ → Run (List String)
  string_to_peers zero bytes = out_of_fuel
  string_to_peers (suc fuel) [] = ok []
  string_to_peers (suc fuel) (b ∷ bytes) =
      let rest = string_to_peers fuel (drop peer_len (b ∷ bytes)) in
      if ltb (length (b ∷ bytes)) peer_len
      then panic
      else (rest >>= λ peers. ok (addresses.of_binary (take peer_len (b ∷ bytes)) ∷ peers))
