-- ===== src/Requesting/Starved.antt =====
-- `RequestBlock` stops at the first active piece that the peer has.
use rakoshare.Base.{
  ℕ, ◌+◌, ◌≡◌, sym, subst, List, [], ◌∷◌, ◌++◌, length, Bool, true, false, All, none, some, ok,
}
use rakoshare.Active.{ActivePiece}
use rakoshare.Active.Normal.{idle, filled, request_loop-normal}
use rakoshare.Peer.{PeerState}
use rakoshare.Requesting.{
  Session, lookup, put, peer_has, request_block2, request_blocks, try_active, request_block,
}

-- The peer lacks the piece of an entry.
abbrev pub Lacks : PeerState → ℕ × ActivePiece → Type 0
Lacks p (k, a) = peer_has p k ≡ ok false

try_active-first :
    (fuel now : ℕ) (end_game : Bool) (before after : List (ℕ × ActivePiece)) (k : ℕ)
    (a : ActivePiece) (t t' : Session) (p p' : PeerState)
    → All (Lacks p) before
    → peer_has p k ≡ ok true
    → request_block2 fuel now k end_game t p ≡ ok (none, t', p')
    → try_active fuel now end_game (before ++ ((k, a) ∷ after)) t p
      ≡ ok (some (none, t', p'), t', p')
unfolding try_active
try_active-first fuel now end_game [] after k a t t' p p' lack has e = rw (try_active, has, e)
try_active-first fuel now end_game ((j, b) ∷ before) after k a t t' p p' (lacks, lack) has e =
    rw (try_active, lacks)
      (try_active-first fuel now end_game before after k a t t' p p' lack has e)

-- Where every block of the first active piece that the peer has is requested or downloaded,
-- `RequestBlock` requests nothing from the peer and changes nothing of its state, whatever other
-- pieces the peer has.
pub request_block-starved :
    (now start : ℕ) (before after : List (ℕ × ActivePiece)) (k : ℕ) (a v : ActivePiece)
    (t : Session) (p : PeerState)
    → t.active_pieces ≡ before ++ ((k, a) ∷ after)
    → All (Lacks p) before
    → peer_has p k ≡ ok true
    → lookup k t.active_pieces ≡ some v
    → idle 0 v.downloader_count ≡ []
    → (t' : Session) × (request_block (length v.downloader_count + 1) now start t p
        ≡ ok (none, t', p))
unfolding request_block
request_block-starved now start before after k a v t p e lack has found busy =
    let fuel = length v.downloader_count + 1 in
    let (loop, _) = request_loop-normal v.downloader_count in
    let t' = record t {
      active_pieces =
          put k (record v { downloader_count = filled v.downloader_count }) t.active_pieces;
    } in
    let one : request_block2 fuel now k false t p ≡ ok (none, t', p) =
      unfold request_block2 request_blocks in rw (request_block2, found, loop, busy) in
    let first = try_active-first fuel now false before after k a t t' p p lack has one in
    let here : try_active fuel now false t.active_pieces t p ≡ ok (some (none, t', p), t', p) =
      subst (λ active. try_active fuel now false active t p ≡ ok (some (none, t', p), t', p))
        (sym e) first in
    (t', rw here)
