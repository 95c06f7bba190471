-- ===== src/Download/Receive.antt =====
-- A block that is received leaves every piece of the session's set intact.
use rakoshare.Base.{
  ℕ, ◌+◌, ◌-◌, ◌*◌, ◌/◌, ◌≤◌, ◌<◌, ◌≡◌, ◌≢◌, refl, ◌∙◌, ◌⊎◌, inl, inr, List, length, drop,
  length-drop, get_elem?-eq_none, [], ◌∷◌, ◌==◌, length-replicate, drop-eq_of_le, ltb-eq-false, pos,
  arith, ltb, leb, Bool, true, false, Bool-cases, none, some, Option, ok, panic,
}
use rakoshare.Bitset.{Bitset, is_set, test, is_within_limits}
use rakoshare.Bitset.Valid.{is_set-test}
use rakoshare.Files.{Disk, FileStore, write_tail, write_loop, write_at, find}
use rakoshare.Files.Range.{write_at-flat}
use rakoshare.Active.{ActivePiece, record_block}
use rakoshare.Peer.{PeerState, Message, standard_block_length}
use rakoshare.Pieces.{sum_size}
use rakoshare.Pieces.Integrity.{check_piece-write_at}
use rakoshare.Requesting.{Session, lookup, new_active}
use rakoshare.Serving.{Refusal, index_of, begin_of}
use rakoshare.Download.{Torrent, Swarm, record_received, check_block, store_block, receive_block}
use rakoshare.Download.Integrity.{IsSound, IsIntact}
use rakoshare.Download.Heard.{AreHeard}
use rakoshare.Download.Recorded.{record_received_lem}

module _ (sha1 : List ℕ → List ℕ) (hash : (piece : List ℕ) → length (sha1 piece) ≡ sum_size) where
  pub store_block_lem :
      (msg : Message) (t : Torrent)
      → IsSound t
      → IsIntact sha1 t
      → test t.serving.session.piece_set (index_of msg) ≡ false
      → begin_of msg + (length msg - 9) ≤ t.serving.session.piece_length
      → IsSound (store_block msg t).1 × IsIntact sha1 (store_block msg t).1
  unfolding store_block
  store_block_lem msg t s h missing fits =
      let ts = t.serving in
      let offset = index_of msg * ts.session.piece_length + begin_of msg in
      let size = length-drop 9 msg in
      (
        record {
          bits = s.bits;
          size = s.size;
          positive = s.positive;
          laid = s.laid;
          backed =
              (write_at-flat ts.disk ts.file_store (drop 9 msg) offset s.laid s.backed
                s.distinct).0;
          distinct = s.distinct;
          sums = s.sums;
        },
        λ i lt m.
            let other : i ≢ index_of msg = λ e. cc (e, m, missing) in
            check_piece-write_at sha1 ts.disk ts.file_store t.total_size ts.session.piece_length
              t.sums (drop 9 msg) i (index_of msg) (begin_of msg) s.positive s.laid s.backed
              s.distinct (omega (arith, size)) other
            ∙ h i lt m,
      )

  -- The tests pass a block only of a piece that is missing, and within the length of a piece.
  check_block_outcome :
      (msg : Message) (t : Session) (p : PeerState) (have : Bitset)
      → p.have ≡ some have
      → have.n ≡ t.total_pieces
      → t.piece_set.n ≡ t.total_pieces
      → ((refusal : Option Refusal) × (check_block t p msg ≡ ok (refusal, false)))
        ⊎ ((check_block t p msg ≡ ok (none, true))
            × (index_of msg < t.total_pieces)
            × (test t.piece_set (index_of msg) ≡ false)
            × (begin_of msg + (length msg - 9) ≤ t.piece_length))
  unfolding check_block is_within_limits
  check_block_outcome msg t p have e n m = elim (Bool-cases (ltb (length msg) 9)) [
    | inl a ↦ inl (some Refusal.unexpected_length, rw (check_block, a) refl)
    | inr a ↦ elim (Bool-cases (ltb (index_of msg) have.n)) [
      | inr b ↦
          inl (some Refusal.piece_out_of_range, rw (check_block, a, e, is_within_limits, b) refl)
      | inl b ↦
          let look = is_set-test t.piece_set (index_of msg) (ground arith) in
          elim (Bool-cases (test t.piece_set (index_of msg))) [
            | inl c ↦ inl (none, rw (check_block, a, e, is_within_limits, b, look, c) refl)
            | inr c ↦ elim (Bool-cases (leb t.piece_length (begin_of msg))) [
              | inl d ↦ inl (
                some Refusal.begin_out_of_range,
                rw (check_block, a, e, is_within_limits, b, look, c, d) refl,
              )
              | inr d ↦ elim (Bool-cases (ltb t.piece_length (begin_of msg + (length msg - 9)))) [
                | inl f ↦ inl (
                  some Refusal.end_out_of_range,
                  rw (check_block, a, e, is_within_limits, b, look, c, d, f) refl,
                )
                | inr f ↦ elim (Bool-cases (ltb (128 * 1024) (length msg - 9))) [
                  | inl g ↦ inl (
                    some Refusal.block_too_large,
                    rw (check_block, a, e, is_within_limits, b, look, c, d, f, g) refl,
                  )
                  | inr g ↦ inr (
                    rw (check_block, a, e, is_within_limits, b, look, c, d, f, g) refl,
                    ground arith,
                    c,
                    ground arith,
                  )
                ]
              ]
            ]
          ]
    ]
  ]

  -- Where a session is sound and its pieces are intact, the set of every peer that is known has a bit
  -- for each piece, so has that of the peer that is served, two pieces are missing at least, and an
  -- active piece has the block that a message names: whatever else the message holds, it is handled
  -- without a panic, and the session stays sound and its pieces intact.
  pub receive_block-IsIntact :
      (msg : Message) (t : Torrent) (w : Swarm) (have : Bitset)
      → IsSound t
      → IsIntact sha1 t
      → AreHeard t.serving.session.total_pieces w
      → w.current.have ≡ some have
      → t.good_pieces + 1 < t.serving.session.total_pieces
      → ((v : ActivePiece)
          → lookup (index_of msg) t.serving.session.active_pieces ≡ some v
          → begin_of msg / standard_block_length < length v.downloader_count)
      → (refusal : Option Refusal) × (stored : Bool) × (t' : Torrent) × (w' : Swarm)
        × (receive_block sha1 msg t w ≡ ok (refusal, stored, t', w'))
        × IsSound t'
        × IsIntact sha1 t'
  unfolding receive_block
  receive_block-IsIntact msg t w have s h heard e more counts =
      elim (check_block_outcome msg t.serving.session w.current have e (heard.0 have e) s.size) [
        | inl (none, a) ↦ (none, false, t, w, rw (receive_block, a) refl, s, h)
        | inl (some r, a) ↦ (some r, false, t, w, rw (receive_block, a) refl, s, h)
        | inr (a, below, missing, fits) ↦
            let (sound, intact) = store_block_lem msg t s h missing fits in
            elim (Bool-cases (store_block msg t).0) [
              | inl l ↦ (
                some Refusal.write_failed,
                false,
                (store_block msg t).1,
                w,
                rw (receive_block, a, l) refl,
                sound,
                intact,
              )
              | inr l ↦
                  let (t', w', r, sound', intact') =
                    record_received_lem sha1 hash (index_of msg) (begin_of msg) (length msg - 9)
                      (store_block msg t).1 w sound intact heard below more counts in
                  (none, true, t', w', rw (receive_block, a, l, r) refl, sound', intact')
            ]
      ]

-- Writing no bytes succeeds.
write_loop-nothing :
    (d : Disk) (fs : FileStore) (off n : ℕ)
    → write_loop d fs [] off n ≡ record { disk = d; count = n; error = none }
unfolding write_loop write_tail
write_loop-nothing d [] off n = refl
write_loop-nothing d (x ∷ fs) off n = refl

store_block-nothing :
    (msg : Message) (t : Torrent) → drop 9 msg ≡ [] → (store_block msg t).0 ≡ false
unfolding store_block write_at
store_block-nothing msg t h =
    let s = t.serving in
    let off = index_of msg * s.session.piece_length + begin_of msg in
    rw
      (
        store_block,
        write_at,
        h,
        write_loop-nothing s.disk (drop (find s.file_store off) s.file_store) off 0,
      )
      refl

check_block-wanted :
    (t : Session) (p : PeerState) (msg : Message) (have : Bitset)
    → length msg ≡ 9
    → p.have ≡ some have
    → is_within_limits have (index_of msg) ≡ true
    → is_set t.piece_set (pos (index_of msg)) ≡ ok false
    → begin_of msg < t.piece_length
    → check_block t p msg ≡ ok (none, true)
unfolding check_block
check_block-wanted t p msg have nine known within missing starts =
    let long : ltb (length msg) 9 ≡ false = ltb-eq-false _ _ (omega arith) in
    let before : leb t.piece_length (begin_of msg) ≡ false = ground arith in
    let ends : ltb t.piece_length (begin_of msg + (length msg - 9)) ≡ false =
      ltb-eq-false _ _ (omega arith) in
    let small : ltb (128 * 1024) (length msg - 9) ≡ false = ltb-eq-false _ _ (omega arith) in
    rw (check_block, long, known, within, missing, before, ends, small) refl

-- A PIECE message without bytes, of the last piece while it is missing and is being downloaded: where
-- it begins within the length of a whole piece, but in a block past those of the last piece, it is a
-- panic.
pub receive_block-panic :
    (sha1 : List ℕ → List ℕ) (msg : Message) (t : Torrent) (w : Swarm) (have : Bitset)
    (v : ActivePiece)
    → length msg ≡ 9
    → w.current.have ≡ some have
    → is_within_limits have (index_of msg) ≡ true
    → index_of msg + 1 ≡ t.serving.session.total_pieces
    → is_set t.serving.session.piece_set (pos (index_of msg)) ≡ ok false
    → lookup (index_of msg) t.serving.session.active_pieces ≡ some v
    → length v.downloader_count
      ≡ length (new_active t.serving.session (index_of msg)).downloader_count
    → t.serving.session.last_piece_length
      ≤ begin_of msg / standard_block_length * standard_block_length
    → begin_of msg < t.serving.session.piece_length
    → receive_block sha1 msg t w ≡ panic
unfolding receive_block record_received record_block store_block new_active
receive_block-panic sha1 msg t w have v nine known within last missing a blocks past starts =
    let e =
      check_block-wanted t.serving.session w.current msg have nine known within missing starts in
    let f = store_block-nothing msg t (drop-eq_of_le {A = ℕ} 9 msg (omega arith)) in
    let is_last : (index_of msg + 1 == t.serving.session.total_pieces) ≡ true = ground arith in
    let size : length (new_active t.serving.session (index_of msg)).downloader_count
        ≡ (t.serving.session.last_piece_length + standard_block_length - 1)
          / standard_block_length =
      rw (new_active, is_last) (length-replicate _ _) in
    let none_there =
      get_elem?-eq_none v.downloader_count (begin_of msg / standard_block_length)
        (omega (arith, blocks, size)) in
    rw (receive_block, e, store_block, f, record_received, a, record_block, none_there) refl
