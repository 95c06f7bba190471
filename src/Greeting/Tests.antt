-- ===== src/Greeting/Tests.antt =====
-- Runs of the handshake, and the theorems at concrete inputs.
use rakoshare.Base.{ℕ, ◌≡◌, ◌==◌, bit_and, refl, List, [], ◌∷◌, ◌++◌, replicate, arith, true, some}
use rakoshare.Greeting.{header, read_header, infohash_of, peer_id_of, has_extensions, has_dht}
use rakoshare.Greeting.Handshakes.{read_header-header}

abbrev infohash : List ℕ
infohash = replicate 20 7

abbrev peer_id : List ℕ
peer_id = replicate 20 8

read_header-header_example :
    (h : List ℕ) × (read_header 1 19 100 (header 1 infohash peer_id ++ (5 ∷ [])) ≡ some h)
    × (infohash_of h ≡ infohash)
    × (peer_id_of h ≡ peer_id)
    × (has_extensions h ≡ true)
    × (has_dht h ≡ (bit_and 1 1 == 1))
read_header-header_example =
    read_header-header 1 19 100 1 infohash peer_id (5 ∷ []) (omega arith) (omega arith)
      (omega arith) refl refl
