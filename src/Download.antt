-- ===== src/Download.antt =====
-- torrent.go: receiving blocks (`RecordBlock` and the case PIECE of `generalMessage`).
-- `sha1` is a parameter. The peers of the list are the one that is served, if it is still listed,
-- and the others.
pub mod Integrity
pub mod Heard
pub mod Recorded
pub mod Receive
pub mod Fits
pub mod Steady
pub mod Returning
pub mod Lower
pub mod Release
pub mod Released
mod Tests
use rakoshare.Base.{
  ℕ, zero, suc, ◌+◌, ◌-◌, ◌*◌, ◌/◌, ◌%◌, ◌^◌, List, [], ◌∷◌, ◌++◌, length, drop, map, ltb, leb,
  ◌==◌, if◌then◌else◌, Bool, true, false, not, ◌&&◌, ◌||◌, Option, none, some, ℤ, pos, negsuc, Run,
  ok, panic, ◌>>=◌,
}
use rakoshare.Bitset.{Bitset, is_set, set_bit, is_within_limits}
use rakoshare.Files.{write_at}
use rakoshare.Store.{cleanup}
use rakoshare.Pieces.{check_piece}
use rakoshare.Active.{ActivePiece, record_block, is_complete, bump}
use rakoshare.Peer.{
  PeerState, Message, standard_block_length, put_uint32, uint32, request_key, send_message,
}
use rakoshare.Requesting.{
  Session, lookup, put, delete_request, request_block_imp, peer_has, request_block,
}
use rakoshare.Serving.{Serving, Refusal, index_of, begin_of}

-- The fields of a session that receiving changes, and what it checks pieces by: the total size and
-- the sums of the metainfo.
pub record Torrent : Type 0 where
  pub serving : Serving
  pub downloaded : ℕ
  pub left : ℤ
  pub good_pieces : ℕ
  pub total_size : ℕ
  pub sums : List ℕ

pub record Swarm : Type 0 where
  pub current : PeerState
  pub listed : Bool
  pub others : List PeerState

-- `x - n` on int64.
unfoldable pub minus : ℤ → ℕ → ℤ
minus (pos m) n = if ltb m n then negsuc (n - m - 1) else pos (m - n)
minus (negsuc m) n = negsuc (m + n)

-- `delete(t.activePieces, piece)`
unfoldable pub delete_active : ℕ → List (ℕ × ActivePiece) → List (ℕ × ActivePiece)
delete_active piece [] = []
delete_active piece ((k, a) ∷ active) =
    let rest = delete_active piece active in if k == piece then rest else (k, a) ∷ rest

-- `_, ok := peer.our_requests[key]`
abbrev pub has_request : ℕ → List (ℕ × ℕ) → Bool
has_request key [] = false
has_request key ((k, time) ∷ requests) = if k == key then true else has_request key requests

-- The cancel notices to the other peers.
unfoldable pub cancel_others : Session → ℕ → ℕ → ℕ → List PeerState → List PeerState
unfolding request_block_imp
cancel_others t key piece block [] = []
cancel_others t key piece block (p ∷ others) =
    (if has_request key p.our_requests then request_block_imp t 0 piece block false p else p)
    ∷ cancel_others t key piece block others

-- The HAVE message to a peer whose set is known and lacks the piece. `IsSet` may panic.
unfoldable pub tell_known : ℕ → PeerState → Option Bitset → Run PeerState
unfolding put_uint32 send_message
tell_known piece p none = ok p
tell_known piece p (some have) = is_set have (pos piece) >>= λ theirs.
    if theirs then ok p else ok (send_message (4 ∷ put_uint32 piece) p)

unfoldable pub tell : ℕ → PeerState → Run PeerState
unfolding tell_known
tell piece p = tell_known piece p p.have

unfoldable pub tell_all : ℕ → List PeerState → Run (List PeerState)
unfolding tell
tell_all piece [] = ok []
tell_all piece (p ∷ others) =
    tell piece p >>= λ p'. tell_all piece others >>= λ others'. ok (p' ∷ others')

unfoldable pub tell_swarm : ℕ → Swarm → Run Swarm
unfolding tell tell_all
tell_swarm piece w = (if w.listed then tell piece w.current else ok w.current) >>= λ current.
    tell_all piece w.others >>= λ others. ok (record w { current = current; others = others })

-- The part of `RecordBlock` after a piece is complete; `v` is the active piece.
unfoldable pub finish_piece :
    (List ℕ → List ℕ) → ℕ → ActivePiece → Torrent → Swarm → Run (Torrent × Swarm)
unfolding check_piece delete_active minus cleanup tell_swarm
finish_piece sha1 piece v t w =
    let s = t.serving in
    let session = record s.session {
      active_pieces = delete_active piece s.session.active_pieces;
    } in
    check_piece sha1 s.disk s.file_store t.total_size session.piece_length t.sums piece >>= λ good.
    if not good
    then ok (
      record t { serving = record s { session = session } },
      record w { current = record w.current { closed = true } },
    )
    else (set_bit session.piece_set (pos piece) >>= λ piece_set.
        let disk =
          if t.good_pieces + 1 == session.total_pieces
          then cleanup s.disk s.file_store
          else s.disk in
        tell_swarm piece w >>= λ w'. ok (
          record t {
            serving = record s { session = record session { piece_set = piece_set }; disk = disk };
            left = minus t.left v.piece_length;
            good_pieces = t.good_pieces + 1;
          },
          w',
        ))

-- `RecordBlock`, whose error its caller ignores. `size` is the length of the block.
unfoldable pub record_received :
    (List ℕ → List ℕ) → ℕ → ℕ → ℕ → Torrent → Swarm → Run (Torrent × Swarm)
unfolding finish_piece cancel_others record_block is_complete put delete_request request_key
record_received sha1 piece begin size t w =
    let block = begin / standard_block_length in
    let key = request_key piece begin in
    let p = record w.current { our_requests = delete_request key w.current.our_requests } in
    let s = t.serving in
    elim (lookup piece s.session.active_pieces) [
      | none ↦ ok (t, record w { current = p })
      | some v ↦ record_block v block >>= λ (count, v').
          let session = record s.session { active_pieces = put piece v' s.session.active_pieces } in
          let others : List PeerState = elim count [
            | pos n ↦ if ltb 1 n then cancel_others session key piece block w.others else w.others
            | negsuc n ↦ w.others
          ] in
          let w' = record w { current = p; others = others } in
          let t' = record t {
            serving = record s { session = session };
            downloaded = t.downloaded + size;
          } in
          if is_complete v'.downloader_count then finish_piece sha1 piece v' t' w' else ok (t', w')
    ]

-- The tests that PIECE begins with: an error, or whether the piece is still wanted.
unfoldable pub check_block : Session → PeerState → Message → Run (Option Refusal × Bool)
unfolding uint32
check_block t p msg =
    if ltb (length msg) 9 then ok (some Refusal.unexpected_length, false) else elim p.have [
      | none ↦ panic
      | some have ↦
          if not (is_within_limits have (index_of msg))
          then ok (some Refusal.piece_out_of_range, false)
          else (is_set t.piece_set (pos (index_of msg)) >>= λ ours.
              if ours
              then ok (none, false)
              else if leb t.piece_length (begin_of msg)
              then ok (some Refusal.begin_out_of_range, false)
              else if ltb t.piece_length (begin_of msg + (length msg - 9))
              then ok (some Refusal.end_out_of_range, false)
              else if ltb (128 * 1024) (length msg - 9)
              then ok (some Refusal.block_too_large, false)
              else ok (none, true))
    ]

-- The write of a block: whether it reports an error, and the torrent with what was written.
unfoldable pub store_block : Message → Torrent → Bool × Torrent
unfolding write_at
store_block msg t =
    let s = t.serving in
    let result =
      write_at s.disk s.file_store (drop 9 msg)
        (index_of msg * s.session.piece_length + begin_of msg) in
    let failed : Bool = elim result.error [ some e ↦ true | none ↦ false ] in
    (failed, record t { serving = record s { disk = result.disk } })

-- The case PIECE up to the request of further blocks.
unfoldable pub receive_block :
    (List ℕ → List ℕ) → Message → Torrent → Swarm → Run (Option Refusal × Bool × Torrent × Swarm)
unfolding check_block store_block record_received
receive_block sha1 msg t w = check_block t.serving.session w.current msg >>= λ (refusal, wanted).
    elim refusal [
      | some r ↦ ok (some r, false, t, w)
      | none ↦
          if not wanted
          then ok (none, false, t, w)
          else (let (failed, t') = store_block msg t in
              if failed
              then ok (some Refusal.write_failed, false, t', w)
              else (record_received sha1 (index_of msg) (begin_of msg) (length msg - 9) t' w
                  >>= λ (t'', w'). ok (none, true, t'', w')))
    ]

unfoldable pub on_piece :
    (List ℕ → List ℕ)
    → ℕ
    → ℕ
    → ℕ
    → Message
    → Torrent
    → Swarm
    → Run (Option Refusal × Torrent × Swarm)
unfolding receive_block request_block
on_piece sha1 fuel now start msg t w = receive_block sha1 msg t w >>= λ (refusal, stored, t', w').
    if not stored
    then ok (refusal, t', w')
    else (request_block fuel now start t'.serving.session w'.current >>= λ (err, session, p). ok (
      elim err [ none ↦ none | some e ↦ some Refusal.request_failed ],
      record t' { serving = record t'.serving { session = session } },
      record w' { current = p },
    ))
