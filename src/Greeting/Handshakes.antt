-- ===== src/Greeting/Handshakes.antt =====
-- A header that is read whole tells what was put into it; one that is not is taken all the same.
use rakoshare.Base.{
  ℕ, ◌≤◌, ◌<◌, ◌≡◌, refl, List, [], ◌∷◌, ◌++◌, length, take, drop, min, take-eq_of_le,
  length-append, bit_and, take-append_left, drop-append_left, arith, ◌==◌, true, some,
}
use rakoshare.Files.{name_eq}
use rakoshare.Id.{to_array}
use rakoshare.Id.Roles.{to_array-whole}
use rakoshare.Greeting.{
  magic, header, read, read_header, infohash_of, peer_id_of, has_extensions, has_dht,
}

-- `Read` where it returns as many bytes as it is asked for.
read-whole :
    (n gives : ℕ) (bytes rest : List ℕ)
    → 0 < n
    → n ≤ gives
    → length bytes ≡ n
    → read n gives (bytes ++ rest) ≡ some (bytes, rest)
unfolding read
read-whole n gives [] rest h g l = absurd (omega arith)
read-whole n gives (b ∷ bytes) rest h g l =
    let m : min n gives ≡ n = omega arith in
    let first = take-append_left n (b ∷ bytes) rest l in
    rw (m, first, to_array-whole n (b ∷ bytes) l, drop-append_left n (b ∷ bytes) rest l) refl

read_header-steps :
    (first second third : ℕ) (stream s1 s2 s3 h : List ℕ)
    → read 1 first stream ≡ some (19 ∷ [], s1)
    → read 19 second s1 ≡ some (magic, s2)
    → read 48 third s2 ≡ some (h, s3)
    → read_header first second third stream ≡ some h
unfolding read_header name_eq
read_header-steps first second third stream s1 s2 s3 h a b c = rw (read_header, a, b, c) refl

-- A header with an infohash and a peer's name of 20 bytes each, read by calls that return as many bytes as
-- they are asked for: the infohash and the name are read back, with the bit of the extension protocol, and
-- with that of the DHT exactly where it was set.
pub read_header-header :
    (first second third dht : ℕ) (infohash peer_id rest : List ℕ)
    → 1 ≤ first
    → 19 ≤ second
    → 48 ≤ third
    → length infohash ≡ 20
    → length peer_id ≡ 20
    → (h : List ℕ) × (read_header first second third (header dht infohash peer_id ++ rest) ≡ some h)
      × (infohash_of h ≡ infohash)
      × (peer_id_of h ≡ peer_id)
      × (has_extensions h ≡ true)
      × (has_dht h ≡ (bit_and dht 1 == 1))
unfolding header
read_header-header first second third dht infohash peer_id rest a b c l m =
    let bits : List ℕ = 0 ∷ 0 ∷ 0 ∷ 0 ∷ 0 ∷ 16 ∷ 0 ∷ dht ∷ [] in
    let known = to_array-whole 20 infohash l in
    let named = to_array-whole 20 peer_id m in
    let h = bits ++ (infohash ++ peer_id) in
    let size : length h ≡ 48 = omega (arith, length-append infohash peer_id) in
    let one = read-whole 1 first (19 ∷ []) (magic ++ (h ++ rest)) (omega arith) a refl in
    let words = read-whole 19 second magic (h ++ rest) (omega arith) b refl in
    let body = read-whole 48 third h rest (omega arith) c size in
    (
      h,
      rw (known, named)
          (read_header-steps first second third ((19 ∷ []) ++ (magic ++ (h ++ rest)))
            (magic ++ (h ++ rest)) (h ++ rest) rest h one words body),
      take-append_left 20 infohash peer_id l,
      rw (drop-append_left 20 infohash peer_id l) (take-eq_of_le 20 peer_id (omega arith)),
      refl,
      refl,
    )

-- A header whose last call of `Read` returns fewer than 48 bytes is taken, with zeros for what is missing.
read_header-short :
    (first second third : ℕ) (rest : List ℕ)
    → 1 ≤ first
    → 19 ≤ second
    → third < 48
    → 0 < length rest
    → read_header first second third ((19 ∷ []) ++ (magic ++ rest))
      ≡ some (to_array 48 (take third rest))
unfolding read
read_header-short first second third [] a b c d = absurd (omega arith)
read_header-short first second third (x ∷ rest) a b c d =
    let one = read-whole 1 first (19 ∷ []) (magic ++ (x ∷ rest)) (omega arith) a refl in
    let words = read-whole 19 second magic (x ∷ rest) (omega arith) b refl in
    let less : min 48 third ≡ third = omega arith in
    read_header-steps first second third ((19 ∷ []) ++ (magic ++ (x ∷ rest))) (magic ++ (x ∷ rest))
      (x ∷ rest) (drop third (x ∷ rest)) (to_array 48 (take third (x ∷ rest))) one words
      (rw less refl)
