-- ===== src/Serving/Answer.antt =====
-- A served request is answered with the bytes of the store.
use rakoshare.Base.{
  ℕ, ◌+◌, ◌-◌, ◌*◌, ◌%◌, ◌^◌, ◌<◌, ◌≡◌, refl, ◌∷◌, ◌++◌, length, replicate, length-replicate, arith,
  ltb, ltb-eq-false, true, false, none, some, Option, ok,
}
use rakoshare.Bitset.{Bitset}
use rakoshare.Files.{ReadResult, read_at}
use rakoshare.Files.Flat.{IsLaid, IsBacked, flat, part, padded}
use rakoshare.Files.Read.{read_at-flat}
use rakoshare.Peer.{PeerState, Message, put_uint32, send_message}
use rakoshare.Serving.{
  Serving, Refusal, check_request, send_request, on_request, index_of, begin_of, length_of,
}
use rakoshare.Serving.Guards.{IsServable, check_request_iff}

-- The PIECE message with the bytes of the store from the block's offset on, filled up with zeros
-- past its end.
abbrev pub piece_message : Serving → ℕ → ℕ → ℕ → Message
piece_message s index begin size =
    7
    ∷ (put_uint32 index
        ++ (put_uint32 begin
            ++ padded
                (part (flat s.disk s.file_store) (index * s.session.piece_length + begin) size)
                size))

abbrev block_read : Serving → ℕ → ℕ → ℕ → ReadResult
block_read s index begin size =
    let bytes = part (flat s.disk s.file_store) (index * s.session.piece_length + begin) size in
    record { buffer = padded bytes size; count = length bytes; error = none }

send_request_lem :
    (index begin size : ℕ) (s : Serving) (p : PeerState)
    → IsLaid 0 s.file_store
    → IsBacked s.disk s.file_store
    → p.am_choking ≡ false
    → size + 9 < 2 ^ 32
    → send_request index begin size s p
      ≡ ok (
        none,
        record s { uploaded = s.uploaded + size },
        send_message (piece_message s index begin size) p,
      )
unfolding send_request
send_request_lem index begin size s p laid backed open_peer small =
    let n : (size + 9) % 2 ^ 32 - 9 ≡ size = omega arith in
    let fits : ltb ((size + 9) % 2 ^ 32) 9 ≡ false = ltb-eq-false _ 9 (omega arith) in
    let read : read_at s.disk s.file_store (replicate ((size + 9) % 2 ^ 32 - 9) 0)
          (index * s.session.piece_length + begin)
        ≡ block_read s index begin size =
      rw n (
        rw (length-replicate {A = ℕ} size 0) at (
          read_at-flat s.disk s.file_store (replicate size 0)
            (index * s.session.piece_length + begin) laid backed)) in
    simp (open_peer, fits, read) refl

-- Where the files of the store are laid out and on the disk and a piece has fewer than 2^32 - 9
-- bytes, a REQUEST that the tests pass, of a peer that is not choked, is answered with a PIECE
-- message of exactly the bytes that it asks for in the flat range of the files, filled up with zeros
-- past the end of the range, and these bytes are counted as uploaded.
pub on_request-piece_message :
    (msg : Message) (s : Serving) (p : PeerState) (have : Bitset)
    → IsLaid 0 s.file_store
    → IsBacked s.disk s.file_store
    → s.session.piece_set.n ≡ s.session.total_pieces
    → p.have ≡ some have
    → have.n ≡ s.session.total_pieces
    → s.session.piece_length + 9 < 2 ^ 32
    → p.am_choking ≡ false
    → IsServable s.session msg
    → on_request msg s p
      ≡ ok (
        none,
        record s { uploaded = s.uploaded + length_of msg },
        send_message (piece_message s (index_of msg) (begin_of msg) (length_of msg)) p,
      )
unfolding on_request
on_request-piece_message msg s p have laid backed n e m small open_peer v =
    let passes = (check_request_iff s.session p have msg n e m).1 v in
    rw passes (
      send_request_lem (index_of msg) (begin_of msg) (length_of msg) s p laid backed open_peer
        (omega (arith, v.ends)))

-- A REQUEST changes nothing of a peer that is choked, nor of the files and the count of the bytes
-- that were uploaded, where its tests do not panic.
on_request-choked :
    (msg : Message) (s : Serving) (p : PeerState) (refusal : Option Refusal)
    → p.am_choking ≡ true
    → check_request s.session p msg ≡ ok refusal
    → on_request msg s p ≡ ok (refusal, s, p)
unfolding on_request send_request
on_request-choked msg s p none choked e = rw (e, choked)
on_request-choked msg s p (some r) choked e = rw e
