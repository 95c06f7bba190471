-- ===== src/Download/Integrity.antt =====
-- What a session needs of its fields, and that its pieces are intact.
use rakoshare.Base.{ℕ, ◌*◌, ◌<◌, ◌≡◌, List, length, true, some, ok}
use rakoshare.Bitset.{Bitset, test}
use rakoshare.Bitset.Valid.{IsValid}
use rakoshare.Files.Flat.{IsLaid, IsBacked}
use rakoshare.Files.Names.{IsDistinct}
use rakoshare.Peer.{PeerState}
use rakoshare.Pieces.{sum_size, check_piece}
use rakoshare.Download.{Torrent}

-- The set of pieces is well formed and has a bit for each piece, the store is well formed and on
-- the disk, and there is a sum for each piece.
pub record IsSound (t : Torrent) : Type 0 where
  pub bits : IsValid t.serving.session.piece_set
  pub size : t.serving.session.piece_set.n ≡ t.serving.session.total_pieces
  pub positive : 0 < t.serving.session.piece_length
  pub laid : IsLaid 0 t.serving.file_store
  pub backed : IsBacked t.serving.disk t.serving.file_store
  pub distinct : IsDistinct t.serving.file_store
  pub sums : length t.sums ≡ t.serving.session.total_pieces * sum_size

-- Every piece of the session's set passes `checkPiece` on the disk.
abbrev pub IsIntact : (List ℕ → List ℕ) → Torrent → Type 0
IsIntact sha1 t =
    (i : ℕ)
    → i < t.serving.session.total_pieces
    → test t.serving.session.piece_set i ≡ true
    → check_piece sha1 t.serving.disk t.serving.file_store t.total_size
        t.serving.session.piece_length t.sums i
      ≡ ok true

-- A peer's set, if it is known, has a bit for each piece.
abbrev pub HasBits : ℕ → PeerState → Type 0
HasBits n p = (have : Bitset) → p.have ≡ some have → have.n ≡ n
