-- ===== src/Download/Tests.antt =====
-- Runs of the receipt of blocks, and the theorems at concrete inputs. The sum of a piece repeats
-- its first byte.
use rakoshare.Base.{
  ℕ, zero, suc, ◌/◌, ◌<◌, ◌≡◌, refl, subst, List, [], ◌∷◌, ◌++◌, replicate, length-replicate,
  get_or, arith, true, Bool, Option, some, none, ok, panic, pos, length,
}
use rakoshare.Bitset.{new, raise_bit, test, is_set, is_within_limits}
use rakoshare.Bitset.Update.{new-IsValid, raise_bit-IsValid}
use rakoshare.Files.{Disk, FileStore, FileName, update, name_eq, read_at}
use rakoshare.Peer.{new_peer_state, Message, uint32, standard_block_length}
use rakoshare.Active.{ActivePiece}
use rakoshare.Requesting.{new_active, lookup}
use rakoshare.Pieces.{check_piece}
use rakoshare.Serving.{Refusal, index_of, begin_of}
use rakoshare.Download.{Torrent, Swarm, receive_block}
use rakoshare.Download.Integrity.{IsSound, IsIntact}
use rakoshare.Download.Heard.{AreHeard}
use rakoshare.Download.Receive.{receive_block-IsIntact, receive_block-panic}

abbrev first_byte : List ℕ → List ℕ
first_byte piece = replicate 20 (get_or piece 0 0)

abbrev the_file : FileName
the_file = 97 ∷ []

abbrev disk : Disk
disk = update (λ _. none) the_file (some (0 ∷ 0 ∷ 0 ∷ 0 ∷ 5 ∷ []))

abbrev one_file : FileStore
one_file = record { offset = 0; entry = record { length = 5; name = the_file } } ∷ []

-- The first of three pieces is active, and the session has the last.
abbrev torrent : Torrent
torrent = record {
  serving = record {
    session = record {
      piece_set = raise_bit (new 3) 2;
      total_pieces = 3;
      piece_length = 2;
      last_piece_length = 1;
      active_pieces = (0, record { downloader_count = pos 1 ∷ []; piece_length = 2 }) ∷ [];
    };
    file_store = one_file;
    disk = disk;
    uploaded = 0;
  };
  downloaded = 0;
  left = pos 4;
  good_pieces = 1;
  total_size = 5;
  sums = replicate 20 1 ++ (replicate 20 3 ++ replicate 20 5);
}

abbrev swarm : Swarm
swarm = record {
  current = record new_peer_state { have = some (new 3) };
  listed = true;
  others = new_peer_state ∷ [];
}

-- The two bytes of the first piece.
abbrev block : Message
block = 7 ∷ 0 ∷ 0 ∷ 0 ∷ 0 ∷ 0 ∷ 0 ∷ 0 ∷ 0 ∷ 1 ∷ 2 ∷ []

torrent-IsSound : IsSound torrent
unfolding update name_eq new
torrent-IsSound = record {
  bits = raise_bit-IsValid (new 3) (new-IsValid 3).0 2 (unfold new in omega arith);
  size = refl;
  positive = omega arith;
  laid = (refl, tt);
  backed = ((0 ∷ 0 ∷ 0 ∷ 0 ∷ 5 ∷ [], refl, refl), tt);
  distinct = (tt, tt);
  sums = refl;
}

torrent-IsIntact : IsIntact first_byte torrent
unfolding new test check_piece read_at update name_eq
torrent-IsIntact zero lt m = cc m
torrent-IsIntact (suc zero) lt m = cc m
torrent-IsIntact (suc (suc zero)) lt m = refl
torrent-IsIntact (suc (suc (suc i))) lt m = absurd (omega arith)

swarm-AreHeard : AreHeard 3 swarm
unfolding new
swarm-AreHeard = (λ have e. cc e, (λ have e. cc e, tt))

abbrev count_of : Option ActivePiece → ℕ
count_of none = 0
count_of (some v) = length v.downloader_count

first_counts :
    (v : ActivePiece)
    → lookup (index_of block) torrent.serving.session.active_pieces ≡ some v
    → begin_of block / standard_block_length < length v.downloader_count
unfolding uint32
first_counts v e =
    subst (λ (o : Option ActivePiece). begin_of block / standard_block_length < count_of o) e
      (omega arith)

receive_block-IsIntact_example :
    (refusal : Option Refusal) × (stored : Bool) × (t' : Torrent) × (w' : Swarm) × (receive_block
        first_byte block torrent swarm
      ≡ ok (refusal, stored, t', w'))
    × IsSound t'
    × IsIntact first_byte t'
receive_block-IsIntact_example =
    receive_block-IsIntact first_byte (λ piece. length-replicate {A = ℕ} 20 (get_or piece 0 0))
      block torrent swarm (new 3) torrent-IsSound torrent-IsIntact swarm-AreHeard refl (omega arith)
      first_counts

-- The last of two pieces is short, and a peer sends an empty block of it from past its end.
abbrev short_piece : ActivePiece
short_piece = record { downloader_count = pos 1 ∷ []; piece_length = 1 }

abbrev large : Torrent
large = record torrent {
  serving = record torrent.serving {
    session = record torrent.serving.session {
      piece_set = new 2;
      total_pieces = 2;
      piece_length = 32768;
      active_pieces = (1, short_piece) ∷ [];
    };
  };
}

abbrev stray : Message
stray = 7 ∷ 0 ∷ 0 ∷ 0 ∷ 1 ∷ 0 ∷ 0 ∷ 64 ∷ 0 ∷ []

abbrev sender : Swarm
sender = record swarm { current = record new_peer_state { have = some (new 2) } }

receive_block-panic_example : receive_block first_byte stray large sender ≡ panic
receive_block-panic_example =
    receive_block-panic first_byte stray large sender (new 2) short_piece refl refl
      (unfold uint32 new is_within_limits in refl) (unfold uint32 in refl)
      (unfold uint32 new is_set in refl) (unfold uint32 in refl) (unfold uint32 new_active in refl)
      (unfold uint32 in omega arith) (unfold uint32 in omega arith)
