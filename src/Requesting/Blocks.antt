-- ===== src/Requesting/Blocks.antt =====
-- The requests for a piece that nobody has downloaded from yet.
use rakoshare.Base.{
  ℕ, ℤ, zero, suc, ◌+◌, ◌-◌, ◌*◌, ◌/◌, ◌%◌, ◌^◌, ◌≡◌, refl, sym, ap, ◌∙◌, List, [], ◌∷◌, ◌++◌,
  length, map, replicate, length-replicate, append-nil, append_assoc, ltb, ltb-eq-false, lt→ltb,
  ◌==◌, if◌then◌else◌, arith, true, false, Bool-cases, ◌⊎◌, inl, inr, none, some, pos, ok, dec_lt,
}
use rakoshare.Active.Normal.{idle, filled, request_loop-normal}
use rakoshare.Peer.{PeerState, standard_block_length, send_message}
use rakoshare.Requesting.{
  Session, lookup, put, block_length, request_message, request_block_imp, request_blocks,
  request_block2, new_active,
}

-- The blocks `from`, `from + 1`, … of this count.
abbrev pub blocks_from : ℕ → ℕ → List ℕ
blocks_from from zero = []
blocks_from from (suc count) = from ∷ blocks_from (from + 1) count

idle-replicate : (from count : ℕ) → idle from (replicate count (pos 0)) ≡ blocks_from from count
idle-replicate from zero = refl
idle-replicate from (suc count) = ap (◌∷◌ from) (idle-replicate (from + 1) count)

-- The lengths of the blocks, added up.
abbrev pub total_length : Session → ℕ → List ℕ → ℕ
total_length t piece [] = 0
total_length t piece (block ∷ blocks) = block_length t piece block + total_length t piece blocks

sent-request_blocks :
    (t : Session) (now piece : ℕ) (blocks : List ℕ) (p : PeerState)
    → (request_blocks t now piece blocks p).sent
      ≡ p.sent ++ map (λ block. request_message t piece block true) blocks
unfolding request_blocks request_block_imp send_message
sent-request_blocks t now piece [] p = sym (append-nil p.sent)
sent-request_blocks t now piece (block ∷ blocks) p =
    sent-request_blocks t now piece blocks (request_block_imp t now piece block true p)
    ∙ append_assoc p.sent (request_message t piece block true ∷ []) _

module _ (t : Session) (piece : ℕ) where
  module _ (last : (piece + 1 == t.total_pieces) ≡ true) where
    -- A block of the last piece that has `left` bytes from its begin on.
    block_length_last :
        (block left : ℕ)
        → block * standard_block_length + left ≡ t.last_piece_length
        → block_length t piece block
          ≡ (if ltb left standard_block_length then left else standard_block_length)
    unfolding block_length
    block_length_last block left e = elim (dec_lt left standard_block_length) [
      | yes h ↦
          let short : ltb t.last_piece_length
                (block * standard_block_length + standard_block_length)
              ≡ true =
            lt→ltb _ _ (omega arith) in
          let value : (t.last_piece_length + 2 ^ 64 - block * standard_block_length) % 2 ^ 32
              ≡ left =
            omega arith in
          rw (last, short, value, lt→ltb left standard_block_length h)
      | no h ↦
          let long : ltb t.last_piece_length (block * standard_block_length + standard_block_length)
              ≡ false =
            ltb-eq-false _ _ (omega arith) in
          rw (last, long, ltb-eq-false left standard_block_length (omega arith))
    ]

    total_length_last :
        (count from left : ℕ)
        → from * standard_block_length + left ≡ t.last_piece_length
        → count ≡ (left + standard_block_length - 1) / standard_block_length
        → total_length t piece (blocks_from from count) ≡ left
    total_length_last zero from left e c = omega arith
    total_length_last (suc count) from left e c = elim (dec_lt left standard_block_length) [
      | yes h ↦
          let one : count ≡ 0 = omega arith in
          rw (one, block_length_last from left e, lt→ltb left standard_block_length h) (omega arith)
      | no h ↦
          let rest =
            total_length_last count (from + 1) (left - standard_block_length) (omega arith)
              (omega arith) in
          rw
            (
              block_length_last from left e,
              ltb-eq-false left standard_block_length (omega arith),
              rest,
            )
            (omega arith)
    ]

  total_length_whole :
      (piece + 1 == t.total_pieces) ≡ false
      → (count from : ℕ)
      → total_length t piece (blocks_from from count) ≡ count * standard_block_length
  unfolding block_length
  total_length_whole other zero from = omega arith
  total_length_whole other (suc count) from =
      rw (other, total_length_whole other count (from + 1)) (omega arith)

  -- The blocks of the counts that are made for the piece are as long together as the piece.
  total_length-new_active :
      (piece + 1 ≡ t.total_pieces) ⊎ (t.piece_length % standard_block_length ≡ 0)
      → total_length t piece (blocks_from 0 (length (new_active t piece).downloader_count))
        ≡ (new_active t piece).piece_length
  unfolding new_active
  total_length-new_active h = elim (Bool-cases (piece + 1 == t.total_pieces)) [
    | inl e ↦
        rw
          (
            e,
            length-replicate {A = ℤ}
                ((t.last_piece_length + standard_block_length - 1) / standard_block_length) (pos 0),
          )
          (total_length_last e _ 0 t.last_piece_length (omega arith) refl)
    | inr e ↦
        let whole : t.piece_length % standard_block_length ≡ 0 = ground arith in
        rw
          (
            e,
            length-replicate {A = ℤ}
                ((t.piece_length + standard_block_length - 1) / standard_block_length) (pos 0),
            total_length_whole e
                ((t.piece_length + standard_block_length - 1) / standard_block_length) 0,
          )
          (omega arith)
  ]

-- For a piece that has just become active, the last one or one of whole blocks, `RequestBlock2`
-- requests every block once and in ascending order, and the lengths that it asks for are together
-- the length of the piece.
pub request_block2-fresh :
    (now piece : ℕ) (t : Session) (p : PeerState)
    → (piece + 1 ≡ t.total_pieces) ⊎ (t.piece_length % standard_block_length ≡ 0)
    → lookup piece t.active_pieces ≡ some (new_active t piece)
    → (count : ℕ) × (t' : Session) × (p' : PeerState) × (request_block2
          (count + 1)
          now
          piece
          false
          t
          p
        ≡ ok (none, t', p'))
      × (p'.sent
          ≡ p.sent ++ map (λ block. request_message t piece block true) (blocks_from 0 count))
      × (total_length t piece (blocks_from 0 count) ≡ (new_active t piece).piece_length)
unfolding request_block2
request_block2-fresh now piece t p h e =
    let v = new_active t piece in
    let count = length v.downloader_count in
    let (loop, _) = request_loop-normal v.downloader_count in
    let fresh : idle 0 v.downloader_count ≡ blocks_from 0 count =
      unfold new_active in
      (idle-replicate 0 _ ∙ ap (blocks_from 0) (sym (length-replicate {A = ℤ} _ (pos 0)))) in
    let t' = record t {
      active_pieces =
          put piece (record v { downloader_count = filled v.downloader_count }) t.active_pieces;
    } in
    (
      count,
      t',
      request_blocks t now piece (blocks_from 0 count) p,
      rw (request_block2, e, loop, fresh),
      sent-request_blocks t now piece (blocks_from 0 count) p,
      total_length-new_active t piece h,
    )
