-- ===== src/Pex/Round.antt =====
-- What a round tells, and that it is read back.
use rakoshare.Base.{
  ℕ, zero, suc, ◌+◌, ◌<◌, ◌≡◌, refl, sym, ap, ◌∙◌, String, inl, inr, List, [], ◌∷◌, ◌++◌, length,
  take, take-append_left, drop-append_left, length-take, length-append, arith, ltb, leb,
  ltb-eq-false, if◌then◌else◌, true, false, Bool-cases, ok, All,
}
use rakoshare.Peers.{Net, Peer}
use rakoshare.Pex.{
  Addresses, PexPeer, peer_len, max_peers, contains, add_peers, to_string, pex_round,
  string_to_peers,
}

-- The addresses of the peers that are not in the list of the last round.
abbrev pub fresh : List PexPeer → List Peer → List String
fresh last [] = []
fresh last (p ∷ peers) = if contains last p then fresh last peers else p.address ∷ fresh last peers

abbrev pub entries : List Peer → List PexPeer
entries [] = []
entries (p ∷ peers) = record { address = p.address; id = p.id } ∷ entries peers

-- What the program relies on of an address: it has six bytes in its binary form, and is read back from it.
abbrev pub IsSixBytes : Addresses → String → Type 0
IsSixBytes addresses address =
    (length (addresses.to_binary address) ≡ peer_len)
    × (addresses.of_binary (addresses.to_binary address) ≡ address)

All-take : (P : String → Type 0) (n : ℕ) (list : List String) → All P list → All P (take n list)
All-take P zero list h = tt
All-take P (suc n) [] h = h
All-take P (suc n) (x ∷ list) (a, h) = (a, All-take P n list h)

module _ (net : Net) (addresses : Addresses) where
  add_peers-fresh :
      (n m : ℕ) (last : List PexPeer) (peers : List Peer)
      → n + suc m ≡ max_peers
      → (add_peers net addresses n last peers).1 ≡ take (suc m) (fresh last peers)
  unfolding add_peers
  add_peers-fresh n m last [] h = refl
  add_peers-fresh n zero last (p ∷ peers) h = elim (Bool-cases (contains last p)) [
    | inl e ↦ rw e (add_peers-fresh n zero last peers h)
    | inr e ↦ let full : leb max_peers (n + 1) ≡ true = ground arith in rw (e, full) refl
  ]
  add_peers-fresh n (suc m) last (p ∷ peers) h = elim (Bool-cases (contains last p)) [
    | inl e ↦ rw e (add_peers-fresh n (suc m) last peers h)
    | inr e ↦
        let room : leb max_peers (n + 1) ≡ false = ground arith in
        rw (e, room)
          (ap (λ (r : List String). p.address ∷ r)
            (add_peers-fresh (n + 1) m last peers (omega arith)))
  ]

  add_peers-entries :
      (n : ℕ) (last : List PexPeer) (peers : List Peer)
      → n + length (fresh last peers) < max_peers
      → (add_peers net addresses n last peers).0 ≡ entries peers
  unfolding add_peers
  add_peers-entries n last [] h = refl
  add_peers-entries n last (p ∷ peers) h = elim (Bool-cases (contains last p)) [
    | inl e ↦ rw e (
        ap (λ (r : List PexPeer). record { address = p.address; id = p.id } ∷ r)
          (add_peers-entries n last peers (rw e at h)))
    | inr e ↦
        let h' : n + length (p.address ∷ fresh last peers) < max_peers = rw e at h in
        let room : leb max_peers (n + 1) ≡ false = ground arith in
        rw (e, room)
          (ap (λ (r : List PexPeer). record { address = p.address; id = p.id } ∷ r)
            (add_peers-entries (n + 1) last peers (omega arith)))
  ]

  -- The addresses of six bytes each are read back.
  string_to_peers-to_string :
      (fuel : ℕ) (list : List String)
      → All (IsSixBytes addresses) list
      → length list < fuel
      → string_to_peers net addresses fuel (to_string net addresses list) ≡ ok list
  unfolding string_to_peers to_string
  string_to_peers-to_string zero list h lt = absurd (omega arith)
  string_to_peers-to_string (suc fuel) [] h lt = refl
  string_to_peers-to_string (suc fuel) (address ∷ list) ((size, back), h) lt =
      go (addresses.to_binary address) refl (string_to_peers-to_string fuel list h (omega arith))
    where
      go :
          (bytes : List ℕ)
          → addresses.to_binary address ≡ bytes
          → string_to_peers net addresses fuel (to_string net addresses list) ≡ ok list
          → string_to_peers net addresses (suc fuel) (to_string net addresses (address ∷ list))
            ≡ ok (address ∷ list)
      go [] e ih = absurd (omega (arith, size, ap (λ (b : List ℕ). length b) e))
      go (b ∷ bytes) e ih =
          let six : length (b ∷ bytes) ≡ peer_len = ap (λ (x : List ℕ). length x) (sym e) ∙ size in
          let more = to_string net addresses list in
          let long : ltb (length ((b ∷ bytes) ++ more)) peer_len ≡ false =
            ltb-eq-false _ _ (omega (arith, length-append (b ∷ bytes) more)) in
          let known : addresses.of_binary (b ∷ bytes) ≡ address =
            ap addresses.of_binary (sym e) ∙ back in
          rw
            (
              e,
              long,
              take-append_left peer_len (b ∷ bytes) more six,
              drop-append_left peer_len (b ∷ bytes) more six,
              known,
              ih,
            )
            refl

-- Where the addresses of the peers that are not in the list which a round has of the last one have six
-- bytes in their binary form and are read back from it, `stringToPeers` reads from the message of the
-- round exactly the addresses of the first 50 of these peers. Where they are fewer than 50, the list
-- that the round leaves for the next one is of all its peers.
pub pex_round-fresh :
    (net : Net) (addresses : Addresses) (last : List PexPeer) (peers : List Peer)
    → All (IsSixBytes addresses) (fresh last peers)
    → (string_to_peers net addresses (max_peers + 1) (pex_round net addresses last peers).0.added
        ≡ ok (take max_peers (fresh last peers)))
      × (length (fresh last peers) < max_peers
          → (pex_round net addresses last peers).1 ≡ entries peers)
unfolding pex_round
pex_round-fresh net addresses last peers h =
    let told = add_peers-fresh net addresses 0 49 last peers refl in
    (
      ap
            (λ (list : List String).
              string_to_peers net addresses (max_peers + 1) (to_string net addresses list))
            told
          ∙ string_to_peers-to_string net addresses (max_peers + 1)
              (take max_peers (fresh last peers))
              (All-take (IsSixBytes addresses) max_peers (fresh last peers) h)
              (omega (arith, length-take max_peers (fresh last peers))),
      λ few. add_peers-entries net addresses 0 last peers (omega arith),
    )
