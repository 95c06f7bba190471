-- ===== src/Tracker/Queries.antt =====
-- trackerClient.go: the query to a tracker, and how its answer is read. HTTP, URLs, bencode and the
-- printing of addresses are parameters.
use rakoshare.Base.{
  ℕ, zero, suc, ◌+◌, ◌*◌, ◌/◌, List, [], ◌∷◌, ◌++◌, length, take, drop, replicate, get_or, set, leb,
  ◌==◌, if◌then◌else◌, Bool, true, not, Option, none, some, ℤ,
}
use rakoshare.Store.{has_prefix}
use rakoshare.Tracker.{Text, TrackerResponse}

pub record ClientStatusReport : Type 0 where
  pub event : Text
  pub info_hash : Text
  pub peer_id : Text
  pub port : ℤ
  pub uploaded : ℤ
  pub downloaded : ℤ
  pub left : ℤ

-- `with_query` parses a URL and adds pairs to its query, `none` for an error; `get` is the status
-- and the body of an answer; `decode` is bencode.
pub record Http : Type 0 where
  pub with_query : Text → List (Text × Text) → Option Text
  pub itoa : ℤ → Text
  pub get : Text → Option (ℕ × List ℕ)
  pub decode : List ℕ → Option TrackerResponse
  pub dotted_port : List ℕ → Text
  pub join_host_port : List ℕ → ℕ → Text

abbrev http_prefix : Text
http_prefix = b'h' ∷ b't' ∷ b't' ∷ b'p' ∷ []

module _ (lib : Http) where
  -- The loop over `PeersRaw`, with the rounds left and its index: the slot is `i / peerLen`.
  unfoldable pub decode_peers : ℕ → ℕ → List ℕ → List Text → List Text
  decode_peers zero i raw peers = peers
  decode_peers (suc rounds) i raw peers =
      decode_peers rounds (i + 1) raw
        (set peers (i / 6) (lib.dotted_port (take 6 (drop (i * 6) raw))))

  unfoldable pub peer6 : List ℕ → Text
  peer6 entry = lib.join_host_port (take 16 entry) (get_or entry 16 0 * 256 + get_or entry 17 0)

  unfoldable pub decode_peers6 : ℕ → ℕ → List ℕ → List Text → List Text
  unfolding peer6
  decode_peers6 zero i raw peers = peers
  decode_peers6 (suc rounds) i raw peers =
      decode_peers6 rounds (i + 1) raw (set peers i (peer6 (take 18 (drop (i * 18) raw))))

  unfoldable pub with_peers : TrackerResponse → TrackerResponse
  unfolding decode_peers decode_peers6
  with_peers tr =
      let n = length tr.peers_raw / 6 in
      let n6 = length tr.peers6_raw / 18 in
      record tr {
        peers =
            if length tr.peers_raw == 0
            then tr.peers
            else decode_peers n 0 tr.peers_raw (replicate n []);
        peers6 =
            if length tr.peers6_raw == 0
            then tr.peers6
            else decode_peers6 n6 0 tr.peers6_raw (replicate n6 []);
      }

  -- `none` for an error.
  unfoldable pub get_tracker_info : Text → Option TrackerResponse
  unfolding with_peers
  get_tracker_info url = elim (lib.get url) [
    | none ↦ none
    | some (status, body) ↦
        if leb 400 status
        then none
        else elim (lib.decode body) [ none ↦ none | some tr ↦ some (with_peers tr) ]
  ]

  unfoldable pub query_pairs : ClientStatusReport → List (Text × Text)
  query_pairs report =
      let event : List (Text × Text) =
        if length report.event == 0
        then []
        else (b'e' ∷ b'v' ∷ b'e' ∷ b'n' ∷ b't' ∷ [], report.event) ∷ [] in
      (b'i' ∷ b'n' ∷ b'f' ∷ b'o' ∷ b'_' ∷ b'h' ∷ b'a' ∷ b's' ∷ b'h' ∷ [], report.info_hash)
      ∷ (b'p' ∷ b'e' ∷ b'e' ∷ b'r' ∷ b'_' ∷ b'i' ∷ b'd' ∷ [], report.peer_id)
      ∷ (b'p' ∷ b'o' ∷ b'r' ∷ b't' ∷ [], lib.itoa report.port)
      ∷ (b'u' ∷ b'p' ∷ b'l' ∷ b'o' ∷ b'a' ∷ b'd' ∷ b'e' ∷ b'd' ∷ [], lib.itoa report.uploaded)
      ∷ (
        b'd' ∷ b'o' ∷ b'w' ∷ b'n' ∷ b'l' ∷ b'o' ∷ b'a' ∷ b'd' ∷ b'e' ∷ b'd' ∷ [],
        lib.itoa report.downloaded,
      )
      ∷ (b'l' ∷ b'e' ∷ b'f' ∷ b't' ∷ [], lib.itoa report.left)
      ∷ (b'c' ∷ b'o' ∷ b'm' ∷ b'p' ∷ b'a' ∷ b'c' ∷ b't' ∷ [], b'1' ∷ [])
      ∷ event

  -- The answer, and whether there is an error: an answer with a reason of failure is returned too.
  unfoldable pub query_tracker : ClientStatusReport → Text → Option TrackerResponse × Bool
  unfolding get_tracker_info query_pairs
  query_tracker report tracker_url =
      let url =
        if has_prefix tracker_url http_prefix
        then tracker_url
        else (http_prefix ++ (b':' ∷ b'/' ∷ b'/' ∷ [])) ++ tracker_url in
      elim (lib.with_query url (query_pairs report)) [
        | none ↦ (none, true)
        | some full ↦ elim (get_tracker_info full) [
          | none ↦ (none, true)
          | some tr ↦ (some tr, not (length tr.failure_reason == 0))
        ]
      ]
