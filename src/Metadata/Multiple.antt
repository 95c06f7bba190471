-- ===== src/Metadata/Multiple.antt =====
-- A dictionary whose length is a multiple of 16 KiB is never complete.
use rakoshare.Base.{
  List, [], ◌∷◌, ◌++◌, drop, replicate, ap, zero, suc, ◌/◌, ℕ, ◌+◌, ◌*◌, ◌≡◌, refl, length, arith,
  leb, true, none, some, pos, ok,
}
use rakoshare.Metadata.{
  Coding, Exchange, MetaPeer, metadata_piece_size, send_metadata_request, on_metadata_request,
  first_missing, after_data, make_pieces,
}
use rakoshare.Metadata.Transfer.{gathered, slice, first_missing-gathered}

-- The pieces that are gathered into the first places of one more.
one_left :
    (raw : List ℕ) (from k : ℕ)
    → gathered raw from k 0 ++ drop k (replicate (k + 1) []) ≡ gathered raw from k 1
one_left raw from zero = refl
one_left raw from (suc k) =
    let e : suc k + 1 ≡ suc (k + 1) = omega arith in
    rw e (ap (λ (r : List (List ℕ)). slice raw from ∷ r) (one_left raw (from + 1) k))

after_data-missing :
    (c : Coding) (x : Exchange) (q : MetaPeer) (k : ℕ)
    → first_missing 0 x.pieces ≡ some k
    → after_data c x q ≡ ok (none, x, send_metadata_request c k q)
unfolding after_data
after_data-missing c x q k h = rw (after_data, h) refl

-- Where the length of a dictionary is a multiple of 16 KiB: of the pieces that the handshake of a peer
-- makes one is left when all its bytes have been gathered into the others, so that the session asks
-- for one more, and a session that has the dictionary does not answer that request.
pub on_metadata_request-past :
    (c : Coding) (x y : Exchange) (p q : MetaPeer) (k : ℕ)
    → x.have_torrent ≡ true
    → length x.raw_info ≡ k * metadata_piece_size
    → (pieces : List (List ℕ)) × (make_pieces c (pos (length x.raw_info)) ≡ ok pieces)
      × (after_data c (record y { pieces = gathered x.raw_info 0 k 0 ++ drop k pieces }) q
          ≡ ok (
            none,
            record y { pieces = gathered x.raw_info 0 k 0 ++ drop k pieces },
            send_metadata_request c k q,
          ))
      × (on_metadata_request c (pos k) x p ≡ ok p)
unfolding on_metadata_request make_pieces
on_metadata_request-past c x y p q k serves e =
    let next = first_missing-gathered x.raw_info 0 k 0 0 (omega arith) in
    let here : 0 + k ≡ k = omega arith in
    let past : leb (length x.raw_info) (k * metadata_piece_size) ≡ true = ground arith in
    let whole : length x.raw_info / metadata_piece_size ≡ k = omega arith in
    (
      replicate (k + 1) [],
      rw whole refl,
      after_data-missing c _ q k (rw (one_left x.raw_info 0 k, next, here) refl),
      rw (on_metadata_request, serves, past) refl,
    )
