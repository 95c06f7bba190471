-- ===== src/Messages/Have.antt =====
-- A HAVE message of a piece that is missing.
use rakoshare.Base.{
  ℕ, ◌+◌, ◌%◌, ◌<◌, ◌≡◌, refl, ◌⊎◌, [], ◌∷◌, ◌++◌, map, length, arith, ltb, true, false, none, some,
  ok,
}
use rakoshare.Bitset.{Bitset, test, is_within_limits}
use rakoshare.Bitset.Valid.{IsValid, is_set-test}
use rakoshare.Bitset.Update.{set_bit_lem}
use rakoshare.Peer.{
  PeerState, Message, standard_block_length, set_interested, send_one_char_message,
}
use rakoshare.Requesting.{Session, put, new_active, request_message}
use rakoshare.Requesting.Blocks.{blocks_from, total_length, request_block2-fresh}
use rakoshare.Download.Release.{lookup-put}
use rakoshare.Serving.{index_of}
use rakoshare.Messages.{ask_for, on_have}

-- A HAVE of a peer that the session is not interested in, with a piece that the session lacks and
-- that is the last one or one of whole blocks: the peer is told
-- of the interest and every block of the piece is requested of it once, in ascending order, whatever blocks of it were
-- downloaded or requested before.
pub on_have-missing :
    (now : ℕ) (msg : Message) (t : Session) (p : PeerState) (have : Bitset)
    → IsValid have
    → p.have ≡ some have
    → p.am_interested ≡ false
    → have.n ≡ t.total_pieces
    → t.piece_set.n ≡ t.total_pieces
    → length msg ≡ 5
    → index_of msg < t.total_pieces
    → test t.piece_set (index_of msg) ≡ false
    → (index_of msg + 1 ≡ t.total_pieces) ⊎ (t.piece_length % standard_block_length ≡ 0)
    → (count : ℕ) × (t' : Session) × (p' : PeerState) × (on_have (count + 1) now msg t p
        ≡ ok (none, t', p'))
      × (p'.sent
          ≡ (p.sent ++ ((2 ∷ []) ∷ []))
            ++ map (λ block. request_message t (index_of msg) block true) (blocks_from 0 count))
      × (total_length t (index_of msg) (blocks_from 0 count)
          ≡ (new_active t (index_of msg)).piece_length)
unfolding on_have is_within_limits ask_for set_interested send_one_char_message new_active
on_have-missing now msg t p have v e idle n m size lt missing whole =
    let piece = index_of msg in
    let (have', f, _, _, members) = set_bit_lem have v piece (omega (arith, n)) in
    let s = record t { active_pieces = put piece (new_active t piece) t.active_pieces } in
    let q = send_one_char_message 2 (record p { have = some have'; am_interested = true }) in
    let (count, t', p', g, sent, sum) =
      request_block2-fresh now piece s q whole
        (lookup-put piece (new_active t piece) t.active_pieces) in
    let inside : ltb piece have.n ≡ true = ground (arith, n) in
    let look = is_set-test t.piece_set piece (omega (arith, m)) in
    (
      count,
      t',
      p',
      rw (on_have, size, e, is_within_limits, inside, f, idle, look, missing, ask_for, g) refl,
      sent,
      sum,
    )
