-- ===== src/Tracker/Tests.antt =====
-- Runs of the tracker client, and the theorems at concrete inputs.
use rakoshare.Base.{
  ◌*◌, ◌/◌, ◌≤◌, ◌<◌, ◌≡◌, refl, inr, [], ◌∷◌, if◌then◌else◌, get_or, take, drop, replicate, arith,
  Bool, true, false, none, some, Option, pos,
}
use rakoshare.Files.{name_eq}
use rakoshare.Tracker.{
  Text, TrackerResponse, TrackerClient, query_trackers, query_level, query_levels,
}
use rakoshare.Tracker.Queries.{Http, peer6, with_peers}
use rakoshare.Tracker.First.{query_trackers-first}
use rakoshare.Tracker.Answers.{with_peers_lem}

abbrev answer : TrackerResponse
answer = record {
  failure_reason = [];
  interval = pos 120;
  peers_raw = replicate 12 1;
  peers = [];
  peers6_raw = replicate 36 2;
  peers6 = [];
}

-- The tracker `c` works, the others do not.
abbrev query : Text → Option TrackerResponse × Bool
query tracker = if name_eq tracker (99 ∷ []) then (some answer, false) else (none, true)

abbrev client : TrackerClient
client = record {
  announce_list = ((97 ∷ []) ∷ []) ∷ (((98 ∷ []) ∷ (99 ∷ []) ∷ (100 ∷ []) ∷ []) ∷ []);
  failed_trackers = [];
}

query_trackers-first_example :
    (tc' : TrackerClient) × (query_trackers query client ≡ (some answer, tc'))
    × (tc'.announce_list ≡ ((97 ∷ []) ∷ []) ∷ (((99 ∷ []) ∷ (98 ∷ []) ∷ (100 ∷ []) ∷ []) ∷ []))
    × (query_trackers query tc' ≡ (some answer, tc'))
unfolding name_eq
query_trackers-first_example =
    query_trackers-first query client (99 ∷ []) (((97 ∷ []) ∷ []) ∷ []) [] ((98 ∷ []) ∷ [])
      ((100 ∷ []) ∷ []) refl refl refl ((inr refl, tt), tt) (inr refl, tt)

-- A tracker that refuses the client: its answer is returned like that of one that accepts it.
abbrev refusing : Text → Option TrackerResponse × Bool
refusing tracker = (some (record answer { failure_reason = 110 ∷ [] }), true)

refused_answer :
    (query_trackers refusing client).0 ≡ some (record answer { failure_reason = 110 ∷ [] })
unfolding query_trackers query_levels query_level name_eq
refused_answer = refl

abbrev http : Http
http = record {
  with_query = λ url pairs. some url;
  itoa = λ n. [];
  get = λ url. none;
  decode = λ body. none;
  dotted_port = λ raw. raw;
  join_host_port = λ host port. host;
}

with_peers_lem_example :
    (12 / 6 ≤ 1 * 6 → get_or (with_peers http answer).peers 1 [] ≡ [])
    × (1 < 36 / 18
        → get_or (with_peers http answer).peers6 1 []
          ≡ peer6 http (take 18 (drop (1 * 18) answer.peers6_raw)))
with_peers_lem_example = with_peers_lem http answer 1 (omega arith)
