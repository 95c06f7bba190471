-- ===== src/Peers/Delete.antt =====
-- Deleting a peer: `Delete` puts the last peer in its place, so the order changes and nothing else.
use rakoshare.Base.{
  ℕ, zero, suc, ◌+◌, ◌-◌, ◌<◌, ◌≡◌, refl, sym, ap, ◌∙◌, String, str_eq, eq_iff, List, [], ◌∷◌, ◌++◌,
  length, take, get_or, set, append_assoc, length-append, arith, false, ◌||◌, if◌then◌else◌,
  Bool-cases, inl, inr,
}
use rakoshare.Peers.{Peer, Peers, delete_from, delete, has_peer}

-- The last peer comes to the front.
abbrev moved : List Peer → List Peer
moved [] = []
moved (q ∷ qs) = get_or (q ∷ qs) (length qs) q ∷ take (length qs) (q ∷ qs)

-- The list without its first peer of an address.
abbrev without : String → List Peer → List Peer
without address [] = []
without address (p ∷ peers) =
    let rest = without address peers in if str_eq p.address address then moved peers else p ∷ rest

get_or_default :
    (peers : List Peer) (i : ℕ) (d e : Peer)
    → i < length peers
    → get_or peers i d ≡ get_or peers i e
get_or_default [] i d e h = absurd (omega arith)
get_or_default (p ∷ peers) zero d e h = refl
get_or_default (p ∷ peers) (suc i) d e h = get_or_default peers i d e (omega arith)

-- The two lines of `Delete` that move the last peer.
move_last :
    (before : List Peer) (p d : Peer) (peers : List Peer)
    → take (length (before ++ (p ∷ peers)) - 1) (
        set
          (before ++ (p ∷ peers))
          (length before)
          (get_or (before ++ (p ∷ peers)) (length (before ++ (p ∷ peers)) - 1) d))
      ≡ before ++ moved peers
move_last [] p d [] = refl
move_last [] p d (q ∷ qs) =
    let n : suc (suc (length qs)) - 1 ≡ suc (length qs) = omega arith in
    rw (n, get_or_default (q ∷ qs) (length qs) d q (omega arith))
move_last (b ∷ before) p d peers =
    let m = length-append before (p ∷ peers) in
    let n : suc (length (before ++ (p ∷ peers))) - 1 ≡ suc (length (before ++ (p ∷ peers)) - 1) =
      omega arith in
    rw (n, move_last before p d peers)

delete_from-without :
    (address : String) (before peers : List Peer)
    → delete_from address (length before) (before ++ peers) peers ≡ before ++ without address peers
unfolding delete_from
delete_from-without address before [] = refl
delete_from-without address before (p ∷ peers) = elim (Bool-cases (str_eq p.address address)) [
  | inl e ↦ rw e (move_last before p p peers)
  | inr e ↦
      let n : length (before ++ (p ∷ [])) ≡ length before + 1 =
        omega (arith, length-append before (p ∷ [])) in
      let later = delete_from-without address (before ++ (p ∷ [])) peers in
      let later' =
        rw
          (
            n,
            append_assoc before (p ∷ []) peers,
            append_assoc before (p ∷ []) (without address peers),
          )
          at later in
      rw e later'
]

has_peer-append :
    (a : String) (xs ys : List Peer) → has_peer a (xs ++ ys) ≡ (has_peer a xs || has_peer a ys)
unfolding has_peer
has_peer-append a [] ys = refl
has_peer-append a (x ∷ xs) ys = ground (arith, has_peer-append a xs ys)

init_last :
    (q : Peer) (qs : List Peer)
    → take (length qs) (q ∷ qs) ++ (get_or (q ∷ qs) (length qs) q ∷ []) ≡ q ∷ qs
init_last q [] = refl
init_last q (r ∷ qs) =
    ap (◌∷◌ q) (rw (get_or_default (r ∷ qs) (length qs) q r (omega arith)) (init_last r qs))

has_peer-moved : (a : String) (peers : List Peer) → has_peer a (moved peers) ≡ has_peer a peers
unfolding has_peer
has_peer-moved a [] = refl
has_peer-moved a (q ∷ qs) =
    let last = get_or (q ∷ qs) (length qs) q in
    let whole = ap (has_peer a) (init_last q qs) in
    let parts = has_peer-append a (take (length qs) (q ∷ qs)) (last ∷ []) in
    ground (arith, whole, parts)

-- No two peers of the list have the same address.
abbrev pub HasDistinctAddresses : List Peer → Type 0
HasDistinctAddresses [] = Unit
HasDistinctAddresses (p ∷ peers) = (has_peer p.address peers ≡ false) × HasDistinctAddresses peers

has_peer-without :
    (a b : String) (peers : List Peer)
    → HasDistinctAddresses peers
    → has_peer a (without b peers) ≡ (if str_eq b a then false else has_peer a peers)
unfolding has_peer
has_peer-without a b [] h = ground arith
has_peer-without a b (p ∷ peers) (out, h) = elim (Bool-cases (str_eq p.address b)) [
  | inl e ↦
      let same_b : p.address ≡ b = (eq_iff p.address b).0 e in
      let out_b : has_peer b peers ≡ false = rw same_b at out in
      elim (Bool-cases (str_eq b a)) [
        | inl f ↦ rw (e, f) (has_peer-moved a peers ∙ (rw ((eq_iff b a).0 f) at out_b))
        | inr f ↦ rw (e, f, same_b, f) (has_peer-moved a peers)
      ]
  | inr e ↦ elim (Bool-cases (str_eq p.address a)) [
    | inr f ↦ rw (e, f) (has_peer-without a b peers h)
    | inl f ↦ elim (Bool-cases (str_eq b a)) [
      | inr g ↦ rw (e, f, g)
      | inl g ↦
          let same_ab : p.address ≡ b = (eq_iff p.address a).0 f ∙ sym ((eq_iff b a).0 g) in
          cc ((eq_iff p.address b).1 same_ab, e)
    ]
  ]
]

-- Where the addresses of the list are distinct, `Delete` takes the peer of the given one's address
-- out of the list and leaves every other, though not in their order.
has_peer-delete :
    (peer : Peer) (lp : Peers) (a : String)
    → HasDistinctAddresses lp.peer_list
    → has_peer a (delete peer lp).peer_list
      ≡ (if str_eq peer.address a then false else has_peer a lp.peer_list)
unfolding delete
has_peer-delete peer lp a h =
    ap (has_peer a) (delete_from-without peer.address [] lp.peer_list)
    ∙ has_peer-without a peer.address lp.peer_list h
