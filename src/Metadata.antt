-- ===== src/Metadata.antt =====
-- metadata.go (`DoMetadata`), the messages of peer.go that carry it, and `DoExtension` of torrent.go:
-- how a peer serves the info dictionary of a torrent in pieces and how another puts it together.
-- bencode and SHA-1 are parameters. Reloading the session with a complete dictionary, and the peer
-- exchange, are left to the caller.
pub mod Transfer
pub mod RoundTrip
pub mod Multiple
mod Tests
use rakoshare.Base.{
  ℕ, zero, suc, ◌+◌, ◌-◌, ◌*◌, ◌/◌, ◌%◌, ◌^◌, List, [], ◌∷◌, ◌++◌, length, take, drop, replicate,
  set, min, ltb, leb, ◌==◌, if◌then◌else◌, Bool, true, false, not, ◌&&◌, ◌||◌, Option, none, some,
  ℤ, pos, negsuc, Run, ok, panic, ◌>>=◌,
}
use rakoshare.Files.{name_eq}
use rakoshare.Control.{Text, extension, extension_code, to_byte}

-- The numbers that bencode reads are integers of either sign.
pub record MetadataMessage : Type 0 where
  pub msg_type : ℤ
  pub piece : ℤ
  pub total_size : ℤ

pub record Handshake : Type 0 where
  pub extensions : List (Text × ℤ)
  pub metadata_size : ℤ

-- `decode` reads a message at the front of the bytes, `none` for an error.
pub record Coding : Type 0 where
  pub encode : MetadataMessage → Option (List ℕ)
  pub decode : List ℕ → Option MetadataMessage
  pub decode_handshake : List ℕ → Option Handshake
  pub sha1 : List ℕ → List ℕ

-- The session's part: `pieces` and `transferring` are those of `MetaDataExchange`, a nil piece is empty.
pub record Exchange : Type 0 where
  pub have_torrent : Bool
  pub transferring : Bool
  pub pieces : List (List ℕ)
  pub raw_info : List ℕ
  pub info_hash : List ℕ

pub record MetaPeer : Type 0 where
  pub their_extensions : List (Text × ℤ)
  pub sent : List (List ℕ)

abbrev pub metadata_piece_size : ℕ
metadata_piece_size = 2 ^ 14

abbrev pub ut_metadata : Text
ut_metadata = b'u' ∷ b't' ∷ b'_' ∷ b'm' ∷ b'e' ∷ b't' ∷ b'a' ∷ b'd' ∷ b'a' ∷ b't' ∷ b'a' ∷ []

-- The piece that the loop over `pieces` stops at: the first that is empty.
abbrev pub first_missing : ℕ → List (List ℕ) → Option ℕ
first_missing i [] = none
first_missing i ([] ∷ pieces) = some i
first_missing i ((b ∷ piece) ∷ pieces) = first_missing (i + 1) pieces

abbrev pub concat : List (List ℕ) → List ℕ
concat [] = []
concat (piece ∷ pieces) = piece ++ concat pieces

abbrev pub is_zero : ℤ → Bool
is_zero (pos zero) = true
is_zero (pos (suc n)) = false
is_zero (negsuc n) = false

-- `pieceSize`, where the last piece is the rest of the total size; `none` is a negative one.
abbrev pub piece_size : ℕ → ℕ → ℤ → Option ℕ
piece_size piece count (pos total) =
    if piece + 1 == count
    then some (total - total / metadata_piece_size * metadata_piece_size)
    else some metadata_piece_size
piece_size piece count (negsuc total) =
    if piece + 1 == count
    then (if suc total % metadata_piece_size == 0 then some 0 else none)
    else some metadata_piece_size

-- What a call leaves: the dictionary that is complete and has the right hash, if any.
abbrev pub Served : Type 0
Served = Run (Option (List ℕ) × Exchange × MetaPeer)

module _ (c : Coding) where
  -- `sendMetadataRequest` by `sendExtensionMessage`; what cannot be encoded is sent empty.
  unfoldable pub send_metadata_request : ℕ → MetaPeer → MetaPeer
  send_metadata_request piece p = elim (extension_code ut_metadata p.their_extensions) [
    | none ↦ p
    | some code ↦
        let request : MetadataMessage = record {
          msg_type = pos 0;
          piece = pos piece;
          total_size = pos 0;
        } in
        let payload : List ℕ = elim (c.encode request) [ none ↦ [] | some bytes ↦ bytes ] in
        record p { sent = p.sent ++ ((extension ∷ (to_byte code ∷ payload)) ∷ []) }
  ]

  -- The answer to a request; `rawInfo[from:to]` of a negative piece panics.
  unfoldable pub respond : ℤ → ℤ → Exchange → MetaPeer → Run MetaPeer
  respond code piece x p =
      let header : MetadataMessage = record {
        msg_type = pos 1;
        piece = piece;
        total_size = pos (length x.raw_info);
      } in
      elim (c.encode header) [
        | none ↦ ok p
        | some bytes ↦ elim piece [
          | negsuc n ↦ panic
          | pos n ↦
              let slice = take metadata_piece_size (drop (n * metadata_piece_size) x.raw_info) in
              ok (record p {
                sent = p.sent ++ ((extension ∷ (to_byte code ∷ (bytes ++ slice))) ∷ []);
              })
        ]
      ]

  abbrev pub is_past : ℤ → List ℕ → Bool
  is_past (pos n) raw = leb (length raw) (n * metadata_piece_size)
  is_past (negsuc n) raw = false

  unfoldable pub on_metadata_request : ℤ → Exchange → MetaPeer → Run MetaPeer
  unfolding respond
  on_metadata_request piece x p =
      if not x.have_torrent
      then ok p
      else if is_past piece x.raw_info
      then ok p
      else elim (extension_code ut_metadata p.their_extensions) [
        | none ↦ ok p
        | some code ↦ respond code piece x p
      ]

  -- The part of METADATA_DATA once the piece is stored.
  unfoldable pub after_data : Exchange → MetaPeer → Served
  unfolding send_metadata_request
  after_data x p = elim (first_missing 0 x.pieces) [
    | some i ↦ ok (none, x, send_metadata_request i p)
    | none ↦
        if name_eq (c.sha1 (concat x.pieces)) x.info_hash
        then ok (some (concat x.pieces), x, p)
        else ok (none, x, p)
  ]

  -- `t.si.ME.Pieces[piece] = msg[len(msg)-pieceSize:]`
  unfoldable pub store_piece : ℕ → Option ℕ → List ℕ → Exchange → Run Exchange
  store_piece piece none msg x = panic
  store_piece piece (some size) msg x =
      if ltb (length msg) size
      then panic
      else ok (record x { pieces = set x.pieces piece (drop (length msg - size) msg) })

  unfoldable pub on_metadata_data : MetadataMessage → List ℕ → Exchange → MetaPeer → Served
  unfolding after_data store_piece
  on_metadata_data message msg x p =
      if x.have_torrent
      then ok (none, x, p)
      else if is_zero message.total_size
      then ok (none, x, p)
      else elim message.piece [
        | negsuc n ↦ panic
        | pos piece ↦
            if leb (length x.pieces) piece
            then ok (none, x, p)
            else (store_piece piece (piece_size piece (length x.pieces) message.total_size) msg x
                >>= λ x'. after_data x' p)
      ]

  unfoldable pub do_metadata : List ℕ → Exchange → MetaPeer → Served
  unfolding on_metadata_request on_metadata_data
  do_metadata msg x p = elim (c.decode msg) [
    | none ↦ ok (none, x, p)
    | some message ↦ elim message.msg_type [
      | pos zero ↦ on_metadata_request message.piece x p >>= λ p'. ok (none, x, p')
      | pos (suc zero) ↦ on_metadata_data message msg x p
      | other ↦ ok (none, x, p)
    ]
  ]

  -- `make([][]byte, nPieces)`: a negative number of pieces panics.
  unfoldable pub make_pieces : ℤ → Run (List (List ℕ))
  make_pieces (pos size) = ok (replicate (size / metadata_piece_size + 1) [])
  make_pieces (negsuc size) =
      if ltb 1 (suc size / metadata_piece_size)
      then panic
      else ok (replicate (1 - suc size / metadata_piece_size) [])

  -- The handshake of `DoExtension`; whether there is an error.
  unfoldable pub on_handshake : List ℕ → Exchange → MetaPeer → Run (Bool × Exchange × MetaPeer)
  unfolding make_pieces send_metadata_request
  on_handshake msg x p = elim (c.decode_handshake msg) [
    | none ↦ ok (true, x, p)
    | some h ↦
        let p' = record p { their_extensions = h.extensions } in
        if x.have_torrent || x.transferring
        then ok (false, x, p')
        else if is_zero h.metadata_size
        then ok (false, x, p')
        else (make_pieces h.metadata_size >>= λ pieces.
            elim (extension_code ut_metadata h.extensions) [
              | none ↦ ok (false, record x { pieces = pieces }, p')
              | some code ↦ ok (
                false,
                record x { pieces = pieces; transferring = true },
                send_metadata_request 0 p',
              )
            ])
  ]

  -- `DoExtension`: of the session's own extensions 1 is `ut_metadata` and 2 `ut_pex`.
  unfoldable pub do_extension :
      List ℕ → Exchange → MetaPeer → Run (Bool × Option (List ℕ) × Exchange × MetaPeer)
  unfolding on_handshake do_metadata
  do_extension [] x p = panic
  do_extension (code ∷ msg) x p =
      if code == 0
      then (on_handshake msg x p >>= λ (error, x', p'). ok (error, none, x', p'))
      else if code == 1
      then (do_metadata msg x p >>= λ (info, x', p'). ok (false, info, x', p'))
      else ok (false, none, x, p)
