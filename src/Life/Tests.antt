-- ===== src/Life/Tests.antt =====
-- Runs of the turns of a session, and the theorems at concrete inputs.
use rakoshare.Base.{
  ℕ, ◌*◌, ◌≡◌, refl, List, [], ◌∷◌, replicate, length-replicate, get_or, arith, true, false, none,
  some, Run, ok, panic, out_of_fuel, ◌++◌, if◌then◌else◌, pos,
}
use rakoshare.Bitset.{new, test, is_set, set_bit, is_within_limits}
use rakoshare.Bitset.Update.{new-IsValid}
use rakoshare.Files.{Disk, name_eq}
use rakoshare.Peer.{Message, new_peer_state, request_key}
use rakoshare.Requesting.{Session}
use rakoshare.Download.{Torrent, Swarm}
use rakoshare.Download.Steady.{IsSteady}
use rakoshare.Messages.{on_message}
use rakoshare.Life.{Member, second, is_timed_out, rechoke, check_members, quit}
use rakoshare.Life.Turns.{LoopTurn, Reach, Reach-IsSteady}
use rakoshare.Life.Idle.{rechoke-panic}

-- A sum that is the first byte of a piece, twenty times.
abbrev first_byte : List ℕ → List ℕ
first_byte piece = replicate 20 (get_or piece 0 0)

abbrev no_extension : Message → Torrent → Swarm → Run (Torrent × Swarm)
no_extension msg t w = ok (t, w)

-- A session of `n` pieces of two bytes that has none of them.
abbrev empty_session : ℕ → Session
empty_session n = record {
  piece_set = new n;
  total_pieces = n;
  piece_length = 2;
  last_piece_length = 2;
  active_pieces = [];
}

-- One file of six zeros holds the three pieces, of which the first is being downloaded.
abbrev disk : Disk
disk name = if name_eq name (b'a' ∷ []) then some (replicate 6 0) else none

abbrev torrent : Torrent
torrent = record {
  serving = record {
    session = record (empty_session 3) {
      active_pieces = (0, record { downloader_count = pos 1 ∷ []; piece_length = 2 }) ∷ [];
    };
    file_store = record { offset = 0; entry = record { length = 6; name = b'a' ∷ [] } } ∷ [];
    disk = disk;
    uploaded = 0;
  };
  downloaded = 0;
  left = pos 6;
  good_pieces = 0;
  total_size = 6;
  sums = replicate 20 7 ++ replicate 40 1;
}

torrent-IsSteady : IsSteady first_byte torrent
torrent-IsSteady = (
  record {
    bits = (new-IsValid 3).0;
    size = unfold new in refl;
    positive = omega arith;
    laid = (refl, tt);
    backed = ((replicate 6 0, unfold name_eq in refl, refl), tt);
    distinct = (tt, tt);
    sums = refl;
  },
  λ i lt m. cc (m, (new-IsValid 3).1 i),
)

abbrev one_peer : Swarm
one_peer = record {
  current = record new_peer_state { have = some (new 3) };
  listed = true;
  others = [];
}

-- The two bytes of the first piece.
abbrev first_block : Message
first_block = 7 ∷ (replicate 8 0 ++ (7 ∷ 7 ∷ []))

abbrev after : Torrent × Swarm
unfolding on_message
after =
    elim (on_message first_byte no_extension true 9 0 (0, 0) (some first_block) torrent one_peer) [
      | ok r ↦ r
      | panic ↦ (torrent, one_peer)
      | out_of_fuel ↦ (torrent, one_peer)
    ]

-- A peer whose last message came in the first second of a minute.
abbrev silent : Member
silent = record {
  state = record new_peer_state { our_requests = (request_key 1 0, 5) ∷ [] };
  last_read = 61 * second;
  last_write = 0;
}

silent_closed :
    check_members (500 * second) (silent ∷ []) (empty_session 3) ≡ ok (empty_session 3, [])
unfolding check_members
silent_closed = refl

on_the_minute : is_timed_out (500 * second) (record silent { last_read = 60 * second }) ≡ false
unfolding is_timed_out
on_the_minute = refl

all_quit : quit (silent ∷ []) (empty_session 3) ≡ ok (empty_session 3)
unfolding quit
all_quit = refl

received :
    on_message first_byte no_extension true 9 0 (0, 0) (some first_block) torrent one_peer
    ≡ ok (after.0, after.1)
unfolding on_message is_within_limits new is_set name_eq set_bit
received = refl

entered : (test after.0.serving.session.piece_set 0 ≡ true) × (after.0.good_pieces ≡ 1)
unfolding test after is_within_limits new is_set name_eq set_bit
entered = (refl, refl)

one_turn : Reach first_byte no_extension torrent after.0
one_turn =
    Reach.next Reach.here (omega arith)
      (LoopTurn.message true 9 0 (0, 0) (some first_block) one_peer after.1 refl received)

Reach-IsSteady_example : IsSteady first_byte after.0
Reach-IsSteady_example =
    Reach-IsSteady first_byte no_extension (λ piece. length-replicate 20 (get_or piece 0 0))
      torrent-IsSteady one_turn

rechoke-panic_example : rechoke 9 0 ((0, silent) ∷ []) (empty_session 0) ≡ panic
rechoke-panic_example = rechoke-panic 9 0 0 silent [] (empty_session 0) refl refl
