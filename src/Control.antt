-- ===== src/Control.antt =====
-- control.go: which metainfo is the newest of a share, and how it is announced to the peers.
-- bencode, ed25519, SHA-1 and the conversions of numbers are parameters. A string is a list of
-- bytes.
pub mod Revisions
pub mod Incoming
pub mod Accepting
mod Tests
use rakoshare.Base.{
  ℕ, zero, suc, ◌+◌, ◌-◌, ◌*◌, ◌%◌, List, [], ◌∷◌, ◌++◌, length, ltb, leb, ◌==◌, if◌then◌else◌,
  Bool, true, false, not, ◌&&◌, Option, none, some, ℤ, pos, negsuc, Run, ok, panic, ◌>>=◌,
}
use rakoshare.Files.{FileName, name_eq}
use rakoshare.Peers.{int_ltb}
use rakoshare.Id.{to_array}

abbrev pub Text : Type 0
Text = FileName

pub record NewInfo : Type 0 where
  pub info_hash : Text
  pub rev : Text

pub record IhMessage : Type 0 where
  pub info : NewInfo
  pub port : ℤ
  pub sig : List ℕ

-- The library functions, with `none` for an error. `hex_sum` prints the SHA-1 of a string.
pub record Wire : Type 0 where
  pub atoi : Text → Option ℤ
  pub itoa : ℤ → Text
  pub hex_sum : Text → Text
  pub encode_info : NewInfo → Option (List ℕ)
  pub encode_message : IhMessage → Option (List ℕ)
  pub decode_message : List ℕ → Option IhMessage
  pub decode_handshake : List ℕ → Option (List (Text × ℤ))
  pub sign : List ℕ → List ℕ → List ℕ
  pub verify : List ℕ → List ℕ → List ℕ → Bool

-- `theirExtensions` is the entries of the map; `sent` is the messages to the peer, in order.
pub record ControlPeer : Type 0 where
  pub address : Text
  pub ip : Text
  pub their_extensions : List (Text × ℤ)
  pub sent : List (List ℕ)

pub record Announce : Type 0 where
  pub infohash : Text
  pub peer : Text

-- `saved` is the message that the session on disk keeps, empty for none; `torrents` is what was sent
-- on the channel of the announcements.
pub record ControlSession : Type 0 where
  pub priv : List ℕ
  pub pub_key : List ℕ
  pub port : ℤ
  pub current_ih : Text
  pub rev : Text
  pub saved : List ℕ
  pub torrents : List Announce

pub data ControlError : Type 0 where
  eof invalid_type handshake_failed unknown_extension decode_failed encode_failed : ControlError
  bad_signature : ControlError

-- `strings.Split` at one byte.
unfoldable pub split : ℕ → Text → List Text
split sep [] = [] ∷ []
split sep (c ∷ s) =
    let rest = split sep s in
    if c == sep
    then [] ∷ rest
    else elim rest [ [] ↦ (c ∷ []) ∷ [] | part ∷ parts ↦ (c ∷ part) ∷ parts ]

abbrev pub dash : ℕ
dash = b'-'

abbrev pub bs_metadata : Text
bs_metadata = b'b' ∷ b's' ∷ b'_' ∷ b'm' ∷ b'e' ∷ b't' ∷ b'a' ∷ b'd' ∷ b'a' ∷ b't' ∷ b'a' ∷ []

abbrev pub extension : ℕ
extension = 20

-- `p.theirExtensions[typ]`
abbrev pub extension_code : Text → List (Text × ℤ) → Option ℤ
extension_code typ [] = none
extension_code typ ((name, code) ∷ extensions) =
    if name_eq name typ then some code else extension_code typ extensions

-- `byte(code)`
abbrev pub to_byte : ℤ → ℕ
to_byte (pos n) = n % 256
to_byte (negsuc n) = 255 - n % 256

module _ (wire : Wire) where
  -- The counter of a revision `<counter>-<hash>`, for one of two parts.
  unfoldable pub counter_of : List Text → Option ℤ
  counter_of (counter ∷ hash ∷ []) = wire.atoi counter
  counter_of parts = none

  unfoldable pub is_newer_than : Text → ControlSession → Bool
  unfolding split counter_of
  is_newer_than rev cs = elim (counter_of (split dash rev)) [
    | none ↦ true
    | some remote ↦ elim (counter_of (split dash cs.rev)) [
      | none ↦ true
      | some local ↦ not (int_ltb local remote)
    ]
  ]

  -- `sendExtensionMessage` of an information message; a message that cannot be encoded is sent
  -- empty.
  unfoldable pub send_extension_message : IhMessage → ControlPeer → ControlPeer
  send_extension_message message p = elim (extension_code bs_metadata p.their_extensions) [
    | none ↦ p
    | some code ↦
        let payload : List ℕ = elim (wire.encode_message message) [
          | none ↦ []
          | some bytes ↦ bytes
        ] in
        record p { sent = p.sent ++ ((extension ∷ (to_byte code ∷ payload)) ∷ []) }
  ]

  unfoldable pub broadcast : IhMessage → List ControlPeer → List ControlPeer
  unfolding send_extension_message
  broadcast message [] = []
  broadcast message (p ∷ peers) = send_extension_message message p ∷ broadcast message peers

  unfoldable pub new_ih_message : ℤ → Text → Text → List ℕ → Option IhMessage
  new_ih_message port ih rev priv =
      let info : NewInfo = record { info_hash = ih; rev = rev } in
      elim (wire.encode_info info) [
        | none ↦ none
        | some bytes ↦ some (record { info = info; port = port; sig = wire.sign priv bytes })
      ]

  -- The two parts of the session's revision, or those of an empty one.
  abbrev pub parts_of : List Text → Text × Text
  parts_of (counter ∷ hash ∷ []) = (counter, hash)
  parts_of parts = (b'0' ∷ [], [])

  -- `counter + 1`, where a counter that is no number is 0.
  abbrev pub next_counter : Option ℤ → ℤ
  next_counter none = pos 1
  next_counter (some (pos n)) = pos (n + 1)
  next_counter (some (negsuc zero)) = pos 0
  next_counter (some (negsuc (suc n))) = negsuc n

  unfoldable pub next_rev : Text → Text → Text
  unfolding split
  next_rev ih rev =
      let (counter, hash) = parts_of (split dash rev) in
      (wire.itoa (next_counter (wire.atoi counter)) ++ (dash ∷ [])) ++ wire.hex_sum (ih ++ hash)

  -- `SetCurrent`, where saving the message succeeds.
  unfoldable pub set_current :
      Text
      → ControlSession
      → List ControlPeer
      → Option ControlError × ControlSession × List ControlPeer
  unfolding next_rev new_ih_message broadcast
  set_current ih cs peers =
      if name_eq cs.current_ih ih
      then (none, cs, peers)
      else (let rev = next_rev ih cs.rev in
          elim (new_ih_message cs.port ih rev cs.priv) [
            | none ↦ (some encode_failed, cs, peers)
            | some message ↦ elim (wire.encode_message message) [
              | none ↦ (some encode_failed, cs, peers)
              | some bytes ↦ (
                none,
                record cs { saved = bytes; current_ih = ih; rev = rev },
                broadcast message peers,
              )
            ]
          ])
