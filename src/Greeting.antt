-- ===== src/Greeting.antt =====
-- The handshake: `Header` of torrent.go and of control.go, `readHeader` of listen.go and what
-- `AddPeer` tests of a header. A call of `Read` may return fewer bytes than it is asked for: how many
-- it returns at most is an argument.
pub mod Handshakes
mod Tests
use rakoshare.Base.{
  ℕ, zero, suc, ◌+◌, ◌-◌, ◌%◌, bit_and, List, [], ◌∷◌, ◌++◌, length, take, drop, replicate, get_or,
  min, ltb, leb, ◌==◌, if◌then◌else◌, Bool, true, false, not, Option, none, some,
}
use rakoshare.Files.{name_eq}
use rakoshare.Id.{to_array}

abbrev pub magic : List ℕ
magic =
    b'B' ∷ b'i' ∷ b't' ∷ b'T' ∷ b'o' ∷ b'r' ∷ b'r' ∷ b'e' ∷ b'n' ∷ b't' ∷ b' ' ∷ b'p' ∷ b'r' ∷ b'o'
    ∷ b't' ∷ b'o' ∷ b'c' ∷ b'o' ∷ b'l' ∷ []

-- The header with byte 25, for the extension protocol, and byte 27, which the control session sets.
unfoldable pub header : ℕ → List ℕ → List ℕ → List ℕ
header dht infohash peer_id =
    19
    ∷ (magic
        ++ ((0 ∷ 0 ∷ 0 ∷ 0 ∷ 0 ∷ 16 ∷ 0 ∷ dht ∷ [])
            ++ (to_array 20 infohash ++ to_array 20 peer_id)))

unfoldable pub session_header : List ℕ → List ℕ → List ℕ
unfolding header
session_header infohash peer_id = header 0 infohash peer_id

unfoldable pub control_header : List ℕ → List ℕ → List ℕ
unfolding header
control_header infohash peer_id = header 1 infohash peer_id

-- `conn.Read` into `n` zeros, of which the call fills `gives` at most: what is in the buffer then, and
-- the rest of the stream; `none` for an error, at the end of the stream.
unfoldable pub read : ℕ → ℕ → List ℕ → Option (List ℕ × List ℕ)
read n gives [] = none
read n gives stream = some (to_array n (take (min n gives) stream), drop (min n gives) stream)

-- `readHeader`: the 48 bytes after the magic, `none` for an error.
unfoldable pub read_header : ℕ → ℕ → ℕ → List ℕ → Option (List ℕ)
unfolding read
read_header first second third stream = elim (read 1 first stream) [
  | none ↦ none
  | some (one, stream') ↦
      if not (get_or one 0 0 == 19) then none else elim (read 19 second stream') [
        | none ↦ none
        | some (words, stream'') ↦
            if not (name_eq words magic)
            then none
            else elim (read 48 third stream'') [ none ↦ none | some (rest, end) ↦ some rest ]
      ]
]

-- `header[8:28]` and `header[28:48]`, and the bits that `AddPeer` tests.
abbrev pub infohash_of : List ℕ → List ℕ
infohash_of h = take 20 (drop 8 h)

abbrev pub peer_id_of : List ℕ → List ℕ
peer_id_of h = take 20 (drop 28 h)

abbrev pub has_extensions : List ℕ → Bool
has_extensions h = bit_and (get_or h 5 0) 16 == 16

abbrev pub has_dht : List ℕ → Bool
has_dht h = bit_and (get_or h 7 0) 1 == 1
