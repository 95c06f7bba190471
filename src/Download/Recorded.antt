-- ===== src/Download/Recorded.antt =====
-- A block that is recorded: the piece that it completes enters the set only where its check passes.
use rakoshare.Base.{
  ℕ, ◌+◌, ◌||◌, ◌/◌, ◌<◌, ◌≡◌, refl, sym, ap, ◌∙◌, inl, inr, List, length, set, ℤ,
  get_elem?-eq_some, arith, ltb, ◌==◌, ==_iff, if◌then◌else◌, true, false, Bool-cases, Option-cases,
  some, pos, negsuc, ok, All,
}
use rakoshare.Bitset.{Bitset, test}
use rakoshare.Bitset.Valid.{IsValid}
use rakoshare.Bitset.Update.{set_bit_lem}
use rakoshare.Active.{ActivePiece, record_block, is_complete}
use rakoshare.Peer.{PeerState, standard_block_length, request_key}
use rakoshare.Pieces.{sum_size, check_piece}
use rakoshare.Pieces.Integrity.{check_piece-ok}
use rakoshare.Requesting.{Session, lookup, put, delete_request}
use rakoshare.Download.{
  Torrent, Swarm, cancel_others, delete_active, minus, finish_piece, record_received,
}
use rakoshare.Download.Integrity.{IsSound, IsIntact, HasBits}
use rakoshare.Download.Heard.{AreHeard, tell_swarm-ok, cancel_others-heard}

-- A torrent whose set is `bits`, one piece larger.
abbrev pub added : Bitset → List (ℕ × ActivePiece) → ℤ → Torrent → Torrent
added bits active left t = record t {
  serving = record t.serving {
    session = record t.serving.session { active_pieces = active; piece_set = bits };
  };
  left = left;
  good_pieces = t.good_pieces + 1;
}

module _ (sha1 : List ℕ → List ℕ) (hash : (piece : List ℕ) → length (sha1 piece) ≡ sum_size) where
  -- The active pieces and the count of bytes bear on neither property.
  pub IsSound-active :
      (active : List (ℕ × ActivePiece)) (downloaded : ℕ) (t : Torrent)
      → IsSound t
      → IsSound (record t {
        serving = record t.serving {
          session = record t.serving.session { active_pieces = active };
        };
        downloaded = downloaded;
      })
  IsSound-active active downloaded t s = record {
    bits = s.bits;
    size = s.size;
    positive = s.positive;
    laid = s.laid;
    backed = s.backed;
    distinct = s.distinct;
    sums = s.sums;
  }

  -- A piece that passes its check may enter the set.
  pub added_lem :
      (piece : ℕ) (bits : Bitset) (active : List (ℕ × ActivePiece)) (left : ℤ) (t : Torrent)
      → IsSound t
      → IsIntact sha1 t
      → IsValid bits
      → bits.n ≡ t.serving.session.piece_set.n
      → ((i : ℕ) → test bits i ≡ ((piece == i) || test t.serving.session.piece_set i))
      → check_piece sha1 t.serving.disk t.serving.file_store t.total_size
          t.serving.session.piece_length t.sums piece
        ≡ ok true
      → IsSound (added bits active left t) × IsIntact sha1 (added bits active left t)
  added_lem piece bits active left t s h valid n members passes = (
    record {
      bits = valid;
      size = n ∙ s.size;
      positive = s.positive;
      laid = s.laid;
      backed = s.backed;
      distinct = s.distinct;
      sums = s.sums;
    },
    λ i lt m. elim (Bool-cases (piece == i)) [
      | inl same ↦ let at = (==_iff piece i).0 same in rw (← at) passes
      | inr other ↦ h i lt (sym (members i ∙ rw other) ∙ m)
    ],
  )

  -- A complete piece enters the set only where it passes its check on the disk.
  finish_piece_lem :
      (piece : ℕ) (v : ActivePiece) (t : Torrent) (w : Swarm)
      → IsSound t
      → IsIntact sha1 t
      → AreHeard t.serving.session.total_pieces w
      → piece < t.serving.session.total_pieces
      → t.good_pieces + 1 < t.serving.session.total_pieces
      → (t' : Torrent) × (w' : Swarm) × (finish_piece sha1 piece v t w ≡ ok (t', w'))
        × IsSound t'
        × IsIntact sha1 t'
  unfolding finish_piece
  finish_piece_lem piece v t w s h heard lt more =
      let ts = t.serving in
      let (b, e) =
        check_piece-ok sha1 ts.disk ts.file_store t.total_size ts.session.piece_length t.sums piece
          hash (omega (arith, s.sums)) in
      let (bits, f, valid, n, members) =
        set_bit_lem ts.session.piece_set s.bits piece (omega (arith, s.size)) in
      let (w', g) = tell_swarm-ok ts.session.total_pieces piece w heard lt in
      let last : (t.good_pieces + 1 == ts.session.total_pieces) ≡ false = ground arith in
      let active = delete_active piece ts.session.active_pieces in
      elim (Bool-cases b) [
        | inr bad ↦ (
          record t {
            serving = record ts { session = record ts.session { active_pieces = active } };
          },
          record w { current = record w.current { closed = true } },
          rw (e, bad) refl,
          IsSound-active active t.downloaded t s,
          h,
        )
        | inl good ↦
            let left = minus t.left v.piece_length in
            let (sound, intact) =
              added_lem piece bits active left t s h valid n members (e ∙ ap ok good) in
            (added bits active left t, w', rw (e, good, f, g, last) refl, sound, intact)
      ]

  cancelled-heard :
      (count : ℤ) (n key piece block : ℕ) (t : Session) (others : List PeerState)
      → All (HasBits n) others
      → All (HasBits n) (elim count as (λ x. List PeerState) [
        | pos m ↦ if ltb 1 m then cancel_others t key piece block others else others
        | negsuc m ↦ others
      ])
  cancelled-heard (pos m) n key piece block t others h = elim (Bool-cases (ltb 1 m)) [
    | inl e ↦ rw e (cancel_others-heard n key piece block t others h)
    | inr e ↦ rw e h
  ]
  cancelled-heard (negsuc m) n key piece block t others h = h

  pub record_received_lem :
      (piece begin size : ℕ) (t : Torrent) (w : Swarm)
      → IsSound t
      → IsIntact sha1 t
      → AreHeard t.serving.session.total_pieces w
      → piece < t.serving.session.total_pieces
      → t.good_pieces + 1 < t.serving.session.total_pieces
      → ((v : ActivePiece)
          → lookup piece t.serving.session.active_pieces ≡ some v
          → begin / standard_block_length < length v.downloader_count)
      → (t' : Torrent) × (w' : Swarm) × (record_received sha1 piece begin size t w ≡ ok (t', w'))
        × IsSound t'
        × IsIntact sha1 t'
  unfolding record_received record_block
  record_received_lem piece begin size t w s h (heard, all) lt more counts =
      elim (Option-cases (lookup piece t.serving.session.active_pieces)) [
        | inl e ↦ (
          t,
          record w {
            current = record w.current {
              our_requests = delete_request (request_key piece begin) w.current.our_requests;
            };
          },
          rw (record_received, e) refl,
          s,
          h,
        )
        | inr (v, e) ↦
            let block = begin / standard_block_length in
            let (count, f) = get_elem?-eq_some v.downloader_count block (counts v e) in
            let v' = record v { downloader_count = set v.downloader_count block (negsuc 0) } in
            let active = put piece v' t.serving.session.active_pieces in
            let session = record t.serving.session { active_pieces = active } in
            let p = record w.current {
              our_requests = delete_request (request_key piece begin) w.current.our_requests;
            } in
            let t1 = record t {
              serving = record t.serving { session = session };
              downloaded = t.downloaded + size;
            } in
            let w1 = record w {
              current = p;
              others = elim count as (λ x. List PeerState) [
                | pos m ↦
                    if ltb 1 m
                    then cancel_others session (request_key piece begin) piece block w.others
                    else w.others
                | negsuc m ↦ w.others
              ];
            } in
            let sound = IsSound-active active (t.downloaded + size) t s in
            let all' =
              cancelled-heard count t.serving.session.total_pieces (request_key piece begin) piece
                block session w.others all in
            let (t2, w2, g, sound2, intact2) =
              finish_piece_lem piece v' t1 w1 sound h (heard, all') lt more in
            elim (Bool-cases (is_complete v'.downloader_count)) [
              | inl c ↦ (t2, w2, rw (record_received, e, record_block, f, c) g, sound2, intact2)
              | inr c ↦ (t1, w1, rw (record_received, e, record_block, f, c) refl, sound, h)
            ]
      ]
