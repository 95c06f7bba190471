-- ===== src/Serving/Guards.antt =====
-- The tests of REQUEST and CANCEL pass exactly the requests for a block of a piece that is there.
use rakoshare.Base.{
  ◌+◌, ◌≤◌, ◌<◌, ◌≡◌, ◌↔◌, length, arith, leb, ltb, ◌==◌, true, Bool-cases, inl, inr, none, some,
  ok,
}
use rakoshare.Bitset.{Bitset, is_within_limits, test}
use rakoshare.Peer.{PeerState, Message}
use rakoshare.Requesting.{Session}
use rakoshare.Bitset.Valid.{is_set-test}
use rakoshare.Serving.{check_request, index_of, begin_of, length_of}

-- The message has the length of a request, its piece is one of the program's, and its block lies
-- within the length of a piece.
pub record IsServable (t : Session) (msg : Message) : Type 0 where
  pub size : length msg ≡ 13
  pub piece : index_of msg < t.total_pieces
  pub ours : test t.piece_set (index_of msg) ≡ true
  pub begins : begin_of msg < t.piece_length
  pub ends : begin_of msg + length_of msg ≤ t.piece_length

-- Where the sets of the session and of the peer have a bit for each of the pieces, the tests of
-- REQUEST and CANCEL pass a message exactly when it has 13 bytes, names a piece that the session
-- has, and asks for bytes that start and end within the length of a piece.
pub check_request_iff :
    (t : Session) (p : PeerState) (have : Bitset) (msg : Message)
    → t.piece_set.n ≡ t.total_pieces
    → p.have ≡ some have
    → have.n ≡ t.total_pieces
    → (check_request t p msg ≡ ok none) ↔ IsServable t msg
unfolding check_request is_within_limits
check_request_iff t p have msg n e m = elim (Bool-cases (length msg == 13)) [
  | inr f ↦ (λ h. cc (rw (check_request, f) at h), λ v. absurd (ground (arith, v.size)))
  | inl f ↦ elim (Bool-cases (ltb (index_of msg) have.n)) [
    | inr g ↦ (
      λ h. cc (rw (check_request, f, e, is_within_limits, g) at h),
      λ v. absurd (ground (arith, v.piece)),
    )
    | inl g ↦
        let look = is_set-test t.piece_set (index_of msg) (ground arith) in
        elim (Bool-cases (test t.piece_set (index_of msg))) [
          | inr o ↦ (
            λ h. cc (rw (check_request, f, e, is_within_limits, g, look, o) at h),
            λ v. cc (v.ours, o),
          )
          | inl o ↦ elim (Bool-cases (leb t.piece_length (begin_of msg))) [
            | inl b ↦ (
              λ h. cc (rw (check_request, f, e, is_within_limits, g, look, o, b) at h),
              λ v. absurd (ground (arith, v.begins)),
            )
            | inr b ↦ elim (Bool-cases (ltb t.piece_length (begin_of msg + length_of msg))) [
              | inl l ↦ (
                λ h. cc (rw (check_request, f, e, is_within_limits, g, look, o, b, l) at h),
                λ v. absurd (ground (arith, v.ends)),
              )
              | inr l ↦ (
                λ h. record {
                  size = ground arith;
                  piece = ground arith;
                  ours = o;
                  begins = ground arith;
                  ends = ground arith;
                },
                λ v. rw (check_request, f, e, is_within_limits, g, look, o, b, l),
              )
            ]
          ]
        ]
  ]
]
