-- ===== src/Serving/Exchange.antt =====
-- A bitfield that one peer sends is the set that the other records.
use rakoshare.Base.{
  ◌⊎◌, ℕ, zero, suc, ◌+◌, ◌≤◌, ◌<◌, ◌≡◌, ◌↔◌, refl, subst, sym, ap, ◌∙◌, ◌∷◌, arith, Bool, true,
  false, not, if◌then◌else◌, Bool-cases, inl, inr, none, some, pos, panic, ok, ℕ_discrete,
}
use rakoshare.Bitset.{Bitset, is_set, bytes, test, new_from_bytes}
use rakoshare.Bitset.Valid.{IsValid, is_set-test}
use rakoshare.Bitset.Wire.{new_from_bytes-bytes}
use rakoshare.Peer.{PeerState, same, set_choke, set_interested, send_message, send_one_char_message}
use rakoshare.Requesting.{Session, peer_has}
use rakoshare.Serving.{Serving, interesting_from, is_interesting, after_bitfield, on_bitfield}

-- A piece from `from` on, of this many, that the session lacks and the peer has.
abbrev pub HasNewPiece : Session → Bitset → ℕ → ℕ → Type 0
HasNewPiece t have from count =
    (i : ℕ) × (from ≤ i) × (i < from + count) × (test t.piece_set i ≡ false) × (test have i ≡ true)

module _ (t : Session) (p : PeerState) (have : Bitset) (e : p.have ≡ some have) where
  later_piece :
      (from count : ℕ) → HasNewPiece t have (from + 1) count → HasNewPiece t have from (suc count)
  later_piece from count (i, a, b, c, d) = (i, omega arith, omega arith, c, d)

  -- Piece `from` is none, so any piece is a later one.
  not_here :
      (from count : ℕ)
      → ((test t.piece_set from ≡ false) → (test have from ≡ true) → ⊥)
      → HasNewPiece t have from (suc count)
      → HasNewPiece t have (from + 1) count
  not_here from count never (i, a, b, c, d) = elim (ℕ_discrete i from) [
    | yes here ↦ absurd (never (rw here at c) (rw here at d))
    | no off ↦ (i, omega arith, omega arith, c, d)
  ]

  peer_has-test : (i : ℕ) → i < have.n → peer_has p i ≡ ok (test have i)
  unfolding peer_has
  peer_has-test i h =
      ap (λ known. elim known [ none ↦ panic | some s ↦ is_set s (pos i) ]) e ∙ is_set-test have i h

  interesting_from_lem :
      (count from : ℕ)
      → from + count ≤ t.piece_set.n
      → from + count ≤ have.n
      → (b : Bool) × (interesting_from count from t p ≡ ok b)
        × ((b ≡ true) ↔ HasNewPiece t have from count)
  unfolding interesting_from
  interesting_from_lem zero from h k =
      (false, refl, (λ q. cc, λ (i, a, b, c, d). absurd (omega arith)))
  interesting_from_lem (suc count) from h k =
      let (b, f, (to, of)) = interesting_from_lem count (from + 1) (omega arith) (omega arith) in
      let ours = is_set-test t.piece_set from (omega arith) in
      let theirs = peer_has-test from (omega arith) in
      elim (Bool-cases (test t.piece_set from)) [
        | inl o ↦ (
          b,
          rw (ours, o, f),
          (λ q. later_piece from count (to q), λ v. of (not_here from count (λ x y. cc (x, o)) v)),
        )
        | inr o ↦ elim (Bool-cases (test have from)) [
          | inr u ↦ (
            b,
            rw (ours, o, theirs, u, f),
            (
              λ q. later_piece from count (to q),
              λ v. of (not_here from count (λ x y. cc (y, u)) v),
            ),
          )
          | inl u ↦ (
            true,
            rw (ours, o, theirs, u),
            (λ q. (from, omega arith, omega arith, o, u), λ v. refl),
          )
        ]
      ]

set_interested-fields :
    (b : Bool) (p : PeerState)
    → ((set_interested b p).have ≡ p.have)
      × ((set_interested b p).am_interested ≡ b)
      × ((set_interested b p).am_choking ≡ p.am_choking)
      × ((set_interested b p).peer_choking ≡ p.peer_choking)
unfolding set_interested send_one_char_message send_message
set_interested-fields b p = elim (Bool-cases (same b p.am_interested)) [
  | inl e ↦ rw e (refl, same-eq b p.am_interested e, refl, refl)
  | inr e ↦ rw e (refl, refl, refl, refl)
]
  where
    same-eq : (x y : Bool) → same x y ≡ true → y ≡ x
    same-eq true y h = h
    same-eq false true h = sym h
    same-eq false false h = refl

set_choke-fields :
    (p : PeerState)
    → ((set_choke false p).am_choking ≡ false) × ((set_choke false p).peer_choking ≡ p.peer_choking)
unfolding set_choke send_one_char_message send_message
set_choke-fields p = go (Bool-cases p.am_choking)
  where
    go :
        (p.am_choking ≡ true) ⊎ (p.am_choking ≡ false)
        → ((set_choke false p).am_choking ≡ false)
          × ((set_choke false p).peer_choking ≡ p.peer_choking)
    go (inl e) = (ground (arith, e), ground (arith, e))
    go (inr e) = (ground (arith, e), ground (arith, e))

if_true : {A : Type 0} (c : Bool) (x y : A) → c ≡ true → (if c then x else y) ≡ x
if_true c x y h = rw h

if_false : {A : Type 0} (c : Bool) (x y : A) → c ≡ false → (if c then x else y) ≡ y
if_false c x y h = rw h

after_bitfield-choked :
    (fuel now : ℕ) (starts : ℕ × ℕ) (s : Serving) (p : PeerState) (b : Bool)
    → is_interesting s.session p ≡ ok b
    → (set_interested b p).peer_choking ≡ true
    → after_bitfield fuel now starts s p
      ≡ ok (none, s, record (set_interested b p) { can_receive_bitfield = false })
unfolding after_bitfield
after_bitfield-choked fuel now (first, second) s p b e h = rw e (if_true _ _ _ h)

-- A BITFIELD message of a well-formed set with a bit for each of the pieces, from a peer that may
-- still send one and that chokes the session: it is accepted, the set becomes what the peer has, no
-- second one may follow, the peer is not choked, and the session is interested in it exactly when
-- the peer has a piece that the session lacks.
pub on_bitfield-bytes :
    (fuel now : ℕ) (starts : ℕ × ℕ) (sent : Bitset) (s : Serving) (p : PeerState)
    → IsValid sent
    → sent.n ≡ s.session.total_pieces
    → s.session.piece_set.n ≡ s.session.total_pieces
    → p.can_receive_bitfield ≡ true
    → p.peer_choking ≡ true
    → (p' : PeerState) × (on_bitfield fuel now starts (5 ∷ bytes sent) s p ≡ ok (none, s, p'))
      × (p'.have ≡ some sent)
      × (p'.can_receive_bitfield ≡ false)
      × (p'.am_choking ≡ false)
      × ((p'.am_interested ≡ true) ↔ HasNewPiece s.session sent 0 s.session.total_pieces)
unfolding on_bitfield
on_bitfield-bytes fuel now starts sent s p v n m may chokes =
    let received =
      subst (λ (k : ℕ). new_from_bytes k (bytes sent) ≡ some sent) n
        (new_from_bytes-bytes sent v) in
    let p1 = record (set_choke false p) { have = some sent } in
    let (b, f, (to, of)) =
      interesting_from_lem s.session p1 sent refl s.session.total_pieces 0 (omega arith)
        (omega arith) in
    let (has, interest, choking, choked) = set_interested-fields b p1 in
    let (open_peer, still) = set_choke-fields p in
    let last =
      after_bitfield-choked fuel now starts s p1 b (unfold is_interesting in f)
        (choked ∙ (still ∙ chokes)) in
    (
      record (set_interested b p1) { can_receive_bitfield = false },
      if_false _ _ _ (ap not may) ∙ rw received last,
      has,
      refl,
      choking ∙ open_peer,
      (λ q. to (sym interest ∙ q), λ w. interest ∙ of w),
    )
