-- ===== src/Serving.antt =====
-- torrent.go: the cases of `generalMessage` for REQUEST, CANCEL and BITFIELD, and what they call.
-- The offset of a block is computed without wrapping: it is below 2^63 for a piece that exists.
pub mod Frame
pub mod Guards
pub mod Answer
pub mod Exchange
mod Tests
use rakoshare.Base.{
  ℕ, zero, suc, ◌+◌, ◌-◌, ◌*◌, ◌%◌, ◌^◌, List, [], ◌∷◌, ◌++◌, length, drop, replicate, ltb, leb,
  ◌==◌, if◌then◌else◌, Bool, true, false, not, Option, none, some, pos, Run, ok, panic, out_of_fuel,
  ◌>>=◌,
}
use rakoshare.Bitset.{Bitset, is_set, is_within_limits, new_from_bytes}
use rakoshare.Files.{Disk, FileStore, read_at}
use rakoshare.Peer.{
  PeerState, Message, standard_block_length, put_uint32, uint32, send_message, set_choke,
  set_interested, cancel_request,
}
use rakoshare.Requesting.{Session, peer_has, request_block}

-- The errors that the cases return, in the words of their messages.
pub data Refusal : Type 0 where
  unexpected_length piece_out_of_range piece_missing begin_out_of_range end_out_of_range : Refusal
  have_out_of_range block_too_large write_failed unknown_message exited : Refusal
  unexpected_block_length late_bitfield invalid_bitfield read_failed request_failed : Refusal

pub record Serving : Type 0 where
  pub session : Session
  pub file_store : FileStore
  pub disk : Disk
  pub uploaded : ℕ

abbrev pub index_of : Message → ℕ
index_of msg = uint32 (drop 1 msg)

abbrev pub begin_of : Message → ℕ
begin_of msg = uint32 (drop 5 msg)

abbrev pub length_of : Message → ℕ
length_of msg = uint32 (drop 9 msg)

-- The tests that REQUEST and CANCEL begin with. A nil bitset panics.
unfoldable pub check_request : Session → PeerState → Message → Run (Option Refusal)
unfolding uint32
check_request t p msg =
    if not (length msg == 13) then ok (some unexpected_length) else elim p.have [
      | none ↦ panic
      | some have ↦
          if not (is_within_limits have (index_of msg))
          then ok (some piece_out_of_range)
          else (is_set t.piece_set (pos (index_of msg)) >>= λ ours.
              if not ours
              then ok (some piece_missing)
              else if leb t.piece_length (begin_of msg)
              then ok (some begin_out_of_range)
              else if ltb t.piece_length (begin_of msg + length_of msg)
              then ok (some end_out_of_range)
              else ok none)
    ]

-- `make([]byte, length+9)` is of the type of `length`, so its size wraps at 2^32.
unfoldable pub send_request :
    ℕ → ℕ → ℕ → Serving → PeerState → Run (Option Refusal × Serving × PeerState)
unfolding put_uint32 send_message read_at
send_request index begin length s p =
    let size = (length + 9) % 2 ^ 32 in
    let result =
      read_at s.disk s.file_store (replicate (size - 9) 0)
        (index * s.session.piece_length + begin) in
    if p.am_choking then ok (none, s, p) else if ltb size 9 then panic else elim result.error [
      | some e ↦ ok (some read_failed, s, p)
      | none ↦ ok (
        none,
        record s { uploaded = s.uploaded + length },
        send_message (7 ∷ (put_uint32 index ++ (put_uint32 begin ++ result.buffer))) p,
      )
    ]

unfoldable pub on_request :
    Message → Serving → PeerState → Run (Option Refusal × Serving × PeerState)
unfolding check_request send_request
on_request msg s p = check_request s.session p msg >>= λ refusal. elim refusal [
  | some r ↦ ok (some r, s, p)
  | none ↦ send_request (index_of msg) (begin_of msg) (length_of msg) s p
]

unfoldable pub on_cancel :
    Message → Serving → PeerState → Run (Option Refusal × Serving × PeerState)
unfolding check_request cancel_request
on_cancel msg s p = check_request s.session p msg >>= λ refusal. elim refusal [
  | some r ↦ ok (some r, s, p)
  | none ↦
      if not (length_of msg == standard_block_length)
      then ok (some unexpected_block_length, s, p)
      else ok (none, s, cancel_request (index_of msg) (begin_of msg) p)
]

-- The loop of `isInteresting`, with the rounds left as the first argument.
unfoldable pub interesting_from : ℕ → ℕ → Session → PeerState → Run Bool
unfolding peer_has
interesting_from zero i t p = ok false
interesting_from (suc rounds) i t p =
    let rest = interesting_from rounds (i + 1) t p in
    is_set t.piece_set (pos i) >>= λ ours.
    if ours then rest else (peer_has p i >>= λ theirs. if theirs then ok true else rest)

unfoldable pub is_interesting : Session → PeerState → Run Bool
unfolding interesting_from
is_interesting t p = interesting_from t.total_pieces 0 t p

-- `for i := 0; i < MAX_OUR_REQUESTS; i++ { … }`: a random start for each of its rounds.
unfoldable pub request_blocks_of :
    ℕ → ℕ → List ℕ → Serving → PeerState → Run (Option Refusal × Serving × PeerState)
unfolding request_block
request_blocks_of fuel now [] s p = ok (none, s, p)
request_blocks_of fuel now (start ∷ starts) s p =
    let rest = request_blocks_of fuel now starts in
    request_block fuel now start s.session p >>= λ (err, t, p'). elim err [
      | some e ↦ ok (some request_failed, record s { session = t }, p')
      | none ↦ rest (record s { session = t }) p'
    ]

-- The case BITFIELD once the peer's set is stored.
unfoldable pub after_bitfield :
    ℕ → ℕ → ℕ × ℕ → Serving → PeerState → Run (Option Refusal × Serving × PeerState)
unfolding set_interested is_interesting request_blocks_of
after_bitfield fuel now (first, second) s p = is_interesting s.session p >>= λ interesting.
    let p' = record (set_interested interesting p) { can_receive_bitfield = false } in
    if p'.peer_choking
    then ok (none, s, p')
    else request_blocks_of fuel now (first ∷ second ∷ []) s p'

unfoldable pub on_bitfield :
    ℕ → ℕ → ℕ × ℕ → Message → Serving → PeerState → Run (Option Refusal × Serving × PeerState)
unfolding set_choke after_bitfield
on_bitfield fuel now starts msg s p =
    if not p.can_receive_bitfield
    then ok (some late_bitfield, s, p)
    else elim (new_from_bytes s.session.total_pieces (drop 1 msg)) [
      | none ↦ ok (some invalid_bitfield, s, record (set_choke false p) { have = none })
      | some have ↦
          after_bitfield fuel now starts s (record (set_choke false p) { have = some have })
    ]
