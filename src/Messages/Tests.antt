-- ===== src/Messages/Tests.antt =====
-- Runs of the messages, and the theorems at concrete inputs.
use rakoshare.Base.{
  ℕ, ◌+◌, ◌*◌, ◌^◌, ◌≡◌, refl, inl, [], ◌∷◌, ◌++◌, map, arith, true, none, some, ok, pos, Run,
}
use rakoshare.Bitset.{new, test}
use rakoshare.Bitset.Update.{new-IsValid}
use rakoshare.Peer.{PeerState, new_peer_state, Message, uint32}
use rakoshare.Requesting.{Session, new_active, request_message}
use rakoshare.Requesting.Blocks.{blocks_from, total_length}
use rakoshare.Serving.{Refusal, index_of}
use rakoshare.Download.{Torrent, Swarm}
use rakoshare.Download.Release.{AreKept}
use rakoshare.Download.Released.{Removed, requests_of, always}
use rakoshare.Messages.{on_have, do_message, on_message}
use rakoshare.Messages.Have.{on_have-missing}
use rakoshare.Messages.Close.{IsGone, on_message-IsGone}

-- The second of two pieces has one block, which is downloaded.
abbrev session : Session
session = record {
  piece_set = new 2;
  total_pieces = 2;
  piece_length = 16384;
  last_piece_length = 5;
  active_pieces = (1, record { downloader_count = pos 1 ∷ []; piece_length = 5 }) ∷ [];
}

abbrev peer : PeerState
peer = record new_peer_state { have = some (new 2); our_requests = (1 * 2 ^ 32, 9) ∷ [] }

-- The peer has the second piece.
abbrev news : Message
news = 4 ∷ 0 ∷ 0 ∷ 0 ∷ 1 ∷ []

on_have-missing_example :
    (count : ℕ) × (t' : Session) × (p' : PeerState) × (on_have (count + 1) 7 news session peer
      ≡ ok (none, t', p'))
    × (p'.sent
        ≡ ([] ++ ((2 ∷ []) ∷ []))
          ++ map
              (λ block. request_message session (index_of news) block true)
              (blocks_from 0 count))
    × (total_length session (index_of news) (blocks_from 0 count)
        ≡ (new_active session (index_of news)).piece_length)
on_have-missing_example =
    on_have-missing 7 news session peer (new 2) (new-IsValid 2).0 refl refl (unfold new in refl)
      (unfold new in refl) refl (unfold uint32 in omega arith) (unfold new uint32 test in refl)
      (unfold uint32 in inl refl)

abbrev torrent : Torrent
torrent = record {
  serving = record { session = session; file_store = []; disk = λ name. none; uploaded = 0 };
  downloaded = 0;
  left = pos 16389;
  good_pieces = 0;
  total_size = 16389;
  sums = [];
}

abbrev swarm : Swarm
swarm = record { current = peer; listed = true; others = [] }

abbrev no_extension : Message → Torrent → Swarm → Run (Torrent × Swarm)
no_extension msg t w = ok (t, w)

-- The peer has ended, with one request of the session left.
on_message-IsGone_example :
    (session' : Session) × (w'' : Swarm) × (on_message
        (λ piece. [])
        no_extension
        true
        3
        7
        (0, 1)
        none
        torrent
        swarm
      ≡ ok (record torrent { serving = record torrent.serving { session = session' } }, w''))
    × IsGone w''
    × AreKept session'.active_pieces session.active_pieces
    × Removed (requests_of always swarm.current.our_requests) session session'
on_message-IsGone_example =
    on_message-IsGone (λ piece. []) no_extension true 3 7 (0, 1) none torrent swarm Refusal.exited
      torrent swarm (unfold do_message in refl) (omega arith, tt)
