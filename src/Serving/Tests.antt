-- ===== src/Serving/Tests.antt =====
-- Runs of the message cases, and the theorems at concrete inputs.
use rakoshare.Base.{◌+◌, ◌≡◌, ◌↔◌, refl, [], ◌∷◌, arith, true, false, none, some, ok}
use rakoshare.Bitset.{Bitset, new, raise_bit, bytes, test}
use rakoshare.Bitset.Valid.{IsValid}
use rakoshare.Bitset.Update.{new-IsValid, raise_bit-IsValid}
use rakoshare.Files.{Disk, FileStore, FileName, update, name_eq}
use rakoshare.Files.Flat.{IsBacked}
use rakoshare.Peer.{PeerState, new_peer_state, Message, send_message, uint32}
use rakoshare.Serving.{
  Serving, check_request, on_request, on_bitfield, index_of, begin_of, length_of,
}
use rakoshare.Serving.Guards.{IsServable, check_request_iff}
use rakoshare.Serving.Answer.{piece_message, on_request-piece_message}
use rakoshare.Serving.Exchange.{HasNewPiece, on_bitfield-bytes}

abbrev the_file : FileName
the_file = 97 ∷ []

abbrev one_file : FileStore
one_file = record { offset = 0; entry = record { length = 5; name = the_file } } ∷ []

abbrev disk : Disk
disk = update (λ _. none) the_file (some (1 ∷ 2 ∷ 3 ∷ 4 ∷ 5 ∷ []))

-- Two pieces of four bytes each, the second cut off, and the session has the second.
abbrev serving : Serving
serving = record {
  session = record {
    piece_set = raise_bit (new 2) 1;
    total_pieces = 2;
    piece_length = 4;
    last_piece_length = 1;
    active_pieces = [];
  };
  file_store = one_file;
  disk = disk;
  uploaded = 0;
}

-- The peer has told that it has nothing.
abbrev leecher : PeerState
leecher = record new_peer_state { have = some (new 2); am_choking = false }

-- One byte of piece 1.
abbrev wish : Message
wish = 6 ∷ 0 ∷ 0 ∷ 0 ∷ 1 ∷ 0 ∷ 0 ∷ 0 ∷ 0 ∷ 0 ∷ 0 ∷ 0 ∷ 1 ∷ []

disk-IsBacked : IsBacked disk one_file
unfolding update name_eq
disk-IsBacked = ((1 ∷ 2 ∷ 3 ∷ 4 ∷ 5 ∷ [], refl, refl), tt)

wish-IsServable : IsServable serving.session wish
unfolding uint32 test new
wish-IsServable = record {
  size = refl;
  piece = omega arith;
  ours = refl;
  begins = omega arith;
  ends = omega arith;
}

check_request_iff_example :
    (check_request serving.session leecher wish ≡ ok none) ↔ IsServable serving.session wish
check_request_iff_example =
    check_request_iff serving.session leecher (new 2) wish (unfold new in refl) refl
      (unfold new in refl)

on_request-piece_message_example :
    on_request wish serving leecher
    ≡ ok (
      none,
      record serving { uploaded = 0 + length_of wish },
      send_message (piece_message serving (index_of wish) (begin_of wish) (length_of wish)) leecher,
    )
on_request-piece_message_example =
    on_request-piece_message wish serving leecher (new 2) (refl, tt) disk-IsBacked
      (unfold new in refl) refl (unfold new in refl) (omega arith) refl wish-IsServable

abbrev choked : PeerState
choked = record leecher { am_choking = true }

-- The first of two pieces.
abbrev first_piece : Bitset
first_piece = raise_bit (new 2) 0

first_piece-IsValid : IsValid first_piece
first_piece-IsValid = raise_bit-IsValid (new 2) (new-IsValid 2).0 0 (unfold new in omega arith)

abbrev newcomer : PeerState
newcomer = new_peer_state

on_bitfield-bytes_example :
    (p' : PeerState) × (on_bitfield 3 5 (0, 1) (5 ∷ bytes first_piece) serving newcomer
      ≡ ok (none, serving, p'))
    × (p'.have ≡ some first_piece)
    × (p'.can_receive_bitfield ≡ false)
    × (p'.am_choking ≡ false)
    × ((p'.am_interested ≡ true) ↔ HasNewPiece serving.session first_piece 0 2)
on_bitfield-bytes_example =
    on_bitfield-bytes 3 5 (0, 1) first_piece serving newcomer first_piece-IsValid
      (unfold new in refl) (unfold new in refl) refl refl
