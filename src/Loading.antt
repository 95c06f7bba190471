-- ===== src/Loading.antt =====
-- torrent.go: how a session starts (`NewTorrentSession`, `load`, `reload`). The metainfo that it has
-- is an argument, bencode, SHA-1 and the cleaning of a path are parameters, and `arriving` is the
-- order in which the sums of the pieces arrive. A length is not negative.
pub mod Intact
mod Tests
use rakoshare.Base.{
  ℕ, zero, suc, ◌+◌, ◌-◌, ◌*◌, ◌/◌, ◌%◌, List, [], ◌∷◌, length, ◌==◌, ltb, if◌then◌else◌, Bool,
  true, false, not, ◌||◌, Option, none, some, ℤ, pos, negsuc, Run, ok, panic, ◌>>=◌,
}
use rakoshare.Bitset.{is_set}
use rakoshare.Files.{FileName, Disk, name_eq}
use rakoshare.Store.{new_file_store, cleanup}
use rakoshare.Pieces.{Checked, check_pieces}
use rakoshare.Peers.{int_eqb}
use rakoshare.Download.{Torrent, minus}

-- The dictionary of a metainfo: `single` is its own name and length.
pub record Dictionary : Type 0 where
  pub piece_length : ℕ
  pub pieces : List ℕ
  pub single : List FileName × ℕ
  pub files : List (List FileName × ℕ)

pub data LoadError : Type 0 where
  bad_dictionary bad_encoding unequal_lengths : LoadError

-- The error, whether the session has its torrent, and the session.
abbrev pub Start : Type 0
Start = Run (Option LoadError × Bool × Torrent)

abbrev pub utf_8 : FileName
utf_8 = b'U' ∷ b'T' ∷ b'F' ∷ b'-' ∷ b'8' ∷ []

unfoldable pub is_known_encoding : FileName → Bool
unfolding name_eq
is_known_encoding encoding = name_eq encoding [] || name_eq encoding utf_8

-- The length of the last piece: a whole piece where nothing is left over.
unfoldable pub last_length : ℕ → ℕ → ℕ
last_length total piece_length =
    if total % piece_length == 0 then piece_length else total % piece_length

-- The bytes that are missing, where `whole` is whether the last piece is there.
unfoldable pub bytes_left : ℕ → ℕ → ℕ → Bool → ℤ
unfolding minus
bytes_left bad piece_length last whole =
    if whole then pos (bad * piece_length) else minus (pos (bad * piece_length + last)) piece_length

-- What `load` does with what `checkPieces` returns.
unfoldable pub take_over : Torrent → Checked → Start
unfolding is_set cleanup bytes_left int_eqb
take_over t c =
    let s = t.serving in
    let session = record s.session { piece_set = c.good_bits; total_pieces = c.good + c.bad } in
    is_set c.good_bits (minus (pos (c.good + c.bad)) 1) >>= λ whole.
    let left = bytes_left c.bad s.session.piece_length s.session.last_piece_length whole in
    let disk = if int_eqb left (pos 0) then cleanup c.disk c.file_store else c.disk in
    ok (
      none,
      true,
      record t {
        serving = record s { session = session; file_store = c.file_store; disk = disk };
        good_pieces = c.good;
      },
    )

module _ (sha1 : List ℕ → List ℕ) (full_path : List FileName → FileName) where
  -- `load`; a piece length of zero divides by zero.
  unfoldable pub load : FileName → Dictionary → List ℕ → Bool → Torrent → Start
  unfolding is_known_encoding new_file_store last_length check_pieces take_over
  load encoding dict arriving have_torrent t =
      let s = t.serving in
      if not (is_known_encoding encoding)
      then ok (some bad_encoding, have_torrent, t)
      else (let (disk, file_store, total) =
            new_file_store full_path s.disk dict.single dict.files in
          if dict.piece_length == 0
          then panic
          else (let session = record s.session {
            piece_length = dict.piece_length;
            last_piece_length = last_length total dict.piece_length;
          } in
              let t' = record t {
                serving = record s { session = session; file_store = file_store; disk = disk };
                total_size = total;
                sums = dict.pieces;
              } in
              check_pieces sha1 disk file_store total dict.piece_length dict.pieces arriving
              >>= λ checked. elim checked [
                | none ↦ ok (some unequal_lengths, have_torrent, t')
                | some c ↦ take_over t' c
              ]))

  -- `reload`, where `decode` is bencode on the dictionary that the peers sent.
  unfoldable pub reload :
      (List ℕ → Option Dictionary) → FileName → List ℕ → List ℕ → Bool → Torrent → Start
  unfolding load
  reload decode encoding info arriving have_torrent t = elim (decode info) [
    | none ↦ ok (some bad_dictionary, have_torrent, t)
    | some dict ↦ load encoding dict arriving have_torrent t
  ]

  -- `NewTorrentSession` on a metainfo: a magnet link brings no dictionary, and nothing is loaded.
  unfoldable pub new_torrent_session : Bool → FileName → Dictionary → List ℕ → Torrent → Start
  unfolding load
  new_torrent_session from_magnet encoding dict arriving t =
      if from_magnet then ok (none, false, t) else load encoding dict arriving false t
