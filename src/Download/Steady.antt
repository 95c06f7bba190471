-- ===== src/Download/Steady.antt =====
-- Whatever a session receives, and whether or not it panics later, what it has returned is intact.
use rakoshare.Base.{
  ℕ, ◌+◌, ◌-◌, ◌/◌, ◌<◌, ◌≡◌, ap, ◌∙◌, List, length, arith, ◌==◌, Bool, false, not, Bool-cases,
  Option-cases, inl, inr, Option, some, ok, Ensures, Ensures->>=, Ensures-if, Ensures-any,
}
use rakoshare.Bitset.{Bitset}
use rakoshare.Bitset.Update.{set_bit_lem}
use rakoshare.Files.{Disk, FileStore}
use rakoshare.Active.{ActivePiece, record_block, is_complete}
use rakoshare.Peer.{Message, standard_block_length}
use rakoshare.Pieces.{sum_size}
use rakoshare.Pieces.Integrity.{check_piece-ok}
use rakoshare.Requesting.{Requested, lookup, put, request_block}
use rakoshare.Requesting.Frame.{outline, request_block-outline}
use rakoshare.Serving.{Refusal, index_of, begin_of}
use rakoshare.Serving.Frame.{view, view-session}
use rakoshare.Download.{
  Torrent, Swarm, delete_active, minus, tell_swarm, finish_piece, record_received, check_block,
  store_block, receive_block, on_piece,
}
use rakoshare.Download.Fits.{Fits, check_block-Fits}
use rakoshare.Download.Integrity.{IsSound, IsIntact}
use rakoshare.Download.Recorded.{IsSound-active, added_lem}
use rakoshare.Download.Receive.{store_block_lem}

-- The session is sound, and its pieces are intact.
abbrev pub IsSteady : (List ℕ → List ℕ) → Torrent → Type 0
IsSteady sha1 t = IsSound t × IsIntact sha1 t

-- What the two depend on.
abbrev pub Core : Type 0
Core = ((Bitset × ℕ × ℕ) × FileStore × Disk) × ℕ × List ℕ

abbrev pub core : Torrent → Core
core t = (view t.serving, t.total_size, t.sums)

pub IsSteady-core :
    (sha1 : List ℕ → List ℕ) (t t' : Torrent)
    → core t' ≡ core t
    → IsSteady sha1 t
    → IsSteady sha1 t'
IsSteady-core sha1 t t' e (s, h) =
    let bits : t'.serving.session.piece_set ≡ t.serving.session.piece_set =
      ap (λ (c : Core). c.0.0.0) e in
    let total : t'.serving.session.total_pieces ≡ t.serving.session.total_pieces =
      ap (λ (c : Core). c.0.0.1) e in
    let size : t'.serving.session.piece_length ≡ t.serving.session.piece_length =
      ap (λ (c : Core). c.0.0.2) e in
    let files : t'.serving.file_store ≡ t.serving.file_store = ap (λ (c : Core). c.0.1) e in
    let disk : t'.serving.disk ≡ t.serving.disk = ap (λ (c : Core). c.0.2) e in
    let sums : t'.sums ≡ t.sums = ap (λ (c : Core). c.2) e in
    let all : t'.total_size ≡ t.total_size = ap (λ (c : Core). c.1) e in
    (
      record {
        bits = rw bits s.bits;
        size = rw (bits, total) s.size;
        positive = rw size s.positive;
        laid = rw files s.laid;
        backed = rw (files, disk) s.backed;
        distinct = rw files s.distinct;
        sums = rw (sums, total) s.sums;
      },
      rw (bits, total, size, files, disk, sums, all) h,
    )

module _ (sha1 : List ℕ → List ℕ) (hash : (piece : List ℕ) → length (sha1 piece) ≡ sum_size) where
  finish_piece-IsSteady :
      (piece : ℕ) (v : ActivePiece) (t : Torrent) (w : Swarm)
      → IsSteady sha1 t
      → piece < t.serving.session.total_pieces
      → t.good_pieces + 1 < t.serving.session.total_pieces
      → Ensures (λ (r : Torrent × Swarm). IsSteady sha1 r.0) (finish_piece sha1 piece v t w)
  unfolding finish_piece
  finish_piece-IsSteady piece v t w (s, h) lt more =
      let ts = t.serving in
      let (b, e) =
        check_piece-ok sha1 ts.disk ts.file_store t.total_size ts.session.piece_length t.sums piece
          hash (omega (arith, s.sums)) in
      let (bits, f, valid, n, members) =
        set_bit_lem ts.session.piece_set s.bits piece (omega (arith, s.size)) in
      let last : (t.good_pieces + 1 == ts.session.total_pieces) ≡ false = ground arith in
      let active = delete_active piece ts.session.active_pieces in
      elim (Bool-cases b) [
        | inr bad ↦ rw (e, bad) (IsSound-active sha1 hash active t.downloaded t s, h)
        | inl good ↦
            let steady =
              added_lem sha1 hash piece bits active (minus t.left v.piece_length) t s h valid n
                members (e ∙ ap ok good) in
            rw (e, good, f, last)
              (Ensures-any (λ (r : Torrent × Swarm). IsSteady sha1 r.0) (tell_swarm piece w) _
                λ w'. steady)
      ]

  record_received-IsSteady :
      (piece begin size : ℕ) (t : Torrent) (w : Swarm)
      → IsSteady sha1 t
      → piece < t.serving.session.total_pieces
      → t.good_pieces + 1 < t.serving.session.total_pieces
      → Ensures
          (λ (r : Torrent × Swarm). IsSteady sha1 r.0)
          (record_received sha1 piece begin size t w)
  unfolding record_received
  record_received-IsSteady piece begin size t w (s, h) lt more =
      let P = λ (r : Torrent × Swarm). IsSteady sha1 r.0 in
      elim (Option-cases (lookup piece t.serving.session.active_pieces)) [
        | inl e ↦ rw (record_received, e) (s, h)
        | inr (v, e) ↦
            rw (record_received, e)
              (Ensures-any P (record_block v (begin / standard_block_length)) _ λ (count, v').
                let active = put piece v' t.serving.session.active_pieces in
                let t' = record t {
                  serving = record t.serving {
                    session = record t.serving.session { active_pieces = active };
                  };
                  downloaded = t.downloaded + size;
                } in
                let steady : IsSteady sha1 t' =
                  (IsSound-active sha1 hash active (t.downloaded + size) t s, h) in
                Ensures-if P (is_complete v'.downloader_count) (finish_piece sha1 piece v' t' _)
                  (ok (t', _)) (finish_piece-IsSteady piece v' t' _ steady lt more) steady)
      ]

  -- A block that is received leaves a session steady, whatever the message, the peers and the active
  -- pieces are.
  pub receive_block-IsSteady :
      (msg : Message) (t : Torrent) (w : Swarm)
      → IsSteady sha1 t
      → t.good_pieces + 1 < t.serving.session.total_pieces
      → Ensures
          (λ (r : Option Refusal × Bool × Torrent × Swarm). IsSteady sha1 r.2)
          (receive_block sha1 msg t w)
  unfolding receive_block
  receive_block-IsSteady msg t w (s, h) more =
      let P = λ (r : Option Refusal × Bool × Torrent × Swarm). IsSteady sha1 r.2 in
      Ensures->>= (Fits t.serving.session msg) P (check_block t.serving.session w.current msg) _
        (check_block-Fits t.serving.session w.current msg)
        λ (refusal, wanted) fits. elim (Option-cases refusal) [
          | inr (r, e) ↦ rw e (s, h)
          | inl e ↦ elim (Bool-cases wanted) [
            | inr f ↦ rw (e, f) (s, h)
            | inl f ↦
                let (lt, missing, within) = fits f in
                let stored = store_block_lem sha1 hash msg t s h missing within in
                rw (e, f)
                  (Ensures-if P (store_block msg t).0
                    (ok (some Refusal.write_failed, false, (store_block msg t).1, w)) _ stored
                    (Ensures->>= (λ (r : Torrent × Swarm). IsSteady sha1 r.0) P _ _
                      (record_received-IsSteady (index_of msg) (begin_of msg) (length msg - 9)
                        (store_block msg t).1 w stored (omega (arith, s.size)) more)
                      λ r steady. steady))
          ]
        ]

  pub on_piece-IsSteady :
      (fuel now start : ℕ) (msg : Message) (t : Torrent) (w : Swarm)
      → IsSteady sha1 t
      → t.good_pieces + 1 < t.serving.session.total_pieces
      → Ensures
          (λ (r : Option Refusal × Torrent × Swarm). IsSteady sha1 r.1)
          (on_piece sha1 fuel now start msg t w)
  unfolding on_piece
  on_piece-IsSteady fuel now start msg t w steady more =
      let P = λ (r : Option Refusal × Torrent × Swarm). IsSteady sha1 r.1 in
      Ensures->>= (λ (r : Option Refusal × Bool × Torrent × Swarm). IsSteady sha1 r.2) P
        (receive_block sha1 msg t w) _ (receive_block-IsSteady msg t w steady more)
        λ (refusal, stored, t', w') kept. Ensures-if P (not stored) (ok (refusal, t', w')) _ kept (
          Ensures->>= (λ (r : Requested). outline r.1 ≡ outline t'.serving.session) P
            (request_block fuel now start t'.serving.session w'.current) _
            (request_block-outline fuel now start t'.serving.session w'.current)
            λ (err, session, p) same.
              IsSteady-core sha1 t'
                (record t' { serving = record t'.serving { session = session } })
                (ap (λ v. (v, t'.total_size, t'.sums)) (view-session session t'.serving same)) kept)
