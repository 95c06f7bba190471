-- ===== src/Requesting/Tests.antt =====
-- Runs of the requests of blocks, and the theorems at concrete inputs.
use rakoshare.Base.{
  ℕ, ◌+◌, ◌≡◌, refl, [], ◌∷◌, ◌++◌, map, arith, true, false, inl, none, some, ℤ, pos, ok,
}
use rakoshare.Bitset.{Bitset, new, raise_bit, test, is_set}
use rakoshare.Active.{ActivePiece}
use rakoshare.Peer.{PeerState, new_peer_state}
use rakoshare.Requesting.{
  Session, peer_has, request_message, request_block2, choose_piece, new_active, request_block,
}
use rakoshare.Requesting.Choice.{wanted, IsWantedIn, choose_piece-IsWantedIn}
use rakoshare.Requesting.Blocks.{blocks_from, total_length, request_block2-fresh}
use rakoshare.Requesting.Starved.{request_block-starved}

-- Two pieces, of 32768 and of 20000 bytes, of which the session has none and the peer the second.
abbrev session : Session
session = record {
  piece_set = new 2;
  total_pieces = 2;
  piece_length = 32768;
  last_piece_length = 20000;
  active_pieces = [];
}

abbrev second : Bitset
second = raise_bit (new 2) 1

abbrev seeder : PeerState
seeder = record new_peer_state { have = some second }

chosen_second : choose_piece 0 session seeder ≡ ok (pos 1)
unfolding choose_piece new test is_set
chosen_second = refl

choose_piece-IsWantedIn_example :
    (r : ℤ) × (choose_piece 0 session seeder ≡ ok r) × IsWantedIn (wanted session second) 0 2 r
choose_piece-IsWantedIn_example =
    choose_piece-IsWantedIn 0 session seeder second (omega arith) (unfold new in refl) refl
      (unfold new in refl)

-- The session once the second piece is active.
abbrev downloading : Session
downloading = record session { active_pieces = (1, new_active session 1) ∷ [] }

request_block2-fresh_example :
    (count : ℕ) × (t' : Session) × (p' : PeerState) × (request_block2
        (count + 1)
        5
        1
        false
        downloading
        seeder
      ≡ ok (none, t', p'))
    × (p'.sent
        ≡ [] ++ map (λ block. request_message downloading 1 block true) (blocks_from 0 count))
    × (total_length downloading 1 (blocks_from 0 count) ≡ (new_active downloading 1).piece_length)
request_block2-fresh_example =
    request_block2-fresh 5 1 downloading seeder (inl (omega arith)) (unfold new_active in refl)

-- Both blocks of the second piece are requested already.
abbrev busy_piece : ActivePiece
busy_piece = record { downloader_count = pos 1 ∷ pos 1 ∷ []; piece_length = 20000 }

abbrev busy : Session
busy = record session { active_pieces = (1, busy_piece) ∷ [] }

request_block-starved_example :
    (t' : Session) × (request_block (2 + 1) 5 0 busy seeder ≡ ok (none, t', seeder))
request_block-starved_example =
    request_block-starved 5 0 [] [] 1 busy_piece busy_piece busy seeder refl tt
      (unfold peer_has is_set new test in refl) refl refl
