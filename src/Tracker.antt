-- ===== src/Tracker.antt =====
-- trackerClient.go: the order in which a client asks its trackers. The random permutation is a
-- parameter. A string is a list of bytes.
pub mod Blacklist
pub mod Asking
pub mod First
pub mod Queries
pub mod Answers
mod Tests
use rakoshare.Base.{
  ℕ, zero, suc, ◌+◌, ◌-◌, ◌*◌, ◌/◌, List, [], ◌∷◌, ◌++◌, length, take, drop, replicate, get_or, set,
  ltb, leb, ◌==◌, if◌then◌else◌, Bool, true, false, not, ◌&&◌, Option, none, some, ℤ,
}
use rakoshare.Files.{FileName, name_eq}
use rakoshare.Store.{has_prefix}

abbrev pub Text : Type 0
Text = FileName

-- The fields of an answer that the client reads.
pub record TrackerResponse : Type 0 where
  pub failure_reason : Text
  pub interval : ℤ
  pub peers_raw : List ℕ
  pub peers : List Text
  pub peers6_raw : List ℕ
  pub peers6 : List Text

-- `announceList` and `failedTrackers`.
pub record TrackerClient : Type 0 where
  pub announce_list : List (List Text)
  pub failed_trackers : List Text

abbrev pub is_failed : Text → List Text → Bool
is_failed tracker [] = false
is_failed tracker (t ∷ failed) = if name_eq t tracker then true else is_failed tracker failed

-- `shuffled[v] = level[i]` for the entries of the permutation.
unfoldable pub shuffle_from : List ℕ → List Text → List Text → List Text
shuffle_from [] level shuffled = shuffled
shuffle_from (v ∷ perm) [] shuffled = shuffled
shuffle_from (v ∷ perm) (x ∷ level) shuffled = shuffle_from perm level (set shuffled v x)

unfoldable pub shuffle_announce_list_level : (ℕ → List ℕ) → List Text → List Text
unfolding shuffle_from
shuffle_announce_list_level perm level =
    shuffle_from (perm (length level)) level (replicate (length level) [])

unfoldable pub shuffle_announce_list : (ℕ → List ℕ) → List (List Text) → List (List Text)
unfolding shuffle_announce_list_level
shuffle_announce_list perm [] = []
shuffle_announce_list perm (level ∷ levels) =
    shuffle_announce_list_level perm level ∷ shuffle_announce_list perm levels

-- `NewTrackerClient`; `none` is a nil list.
unfoldable pub new_tracker_client : (ℕ → List ℕ) → Text → Option (List (List Text)) → TrackerClient
unfolding shuffle_announce_list
new_tracker_client perm announce (some levels) = record {
  announce_list = shuffle_announce_list perm levels;
  failed_trackers = [];
}
new_tracker_client perm announce none =
    let levels : List (List Text) = if length announce == 0 then [] else (announce ∷ []) ∷ [] in
    record { announce_list = shuffle_announce_list perm levels; failed_trackers = [] }

-- `levels` where one was changed, the last answer of `queryTracker`, and whether it is a success.
pub record Asked (A : Type 0) : Type 0 where
  pub order : A
  pub failed : List Text
  pub answer : Option TrackerResponse
  pub found : Bool

-- The inner loop of `queryTrackers`: `seen` is the part of the level before. `copy` and the write to
-- `level[0]` move the tracker to the front.
unfoldable pub query_level :
    (Text → Option TrackerResponse × Bool)
    → List Text
    → List Text
    → List Text
    → Option TrackerResponse
    → Asked (List Text)
query_level query seen [] failed answer = record {
  order = seen;
  failed = failed;
  answer = answer;
  found = false;
}
query_level query seen (tracker ∷ level) failed answer =
    let next = query_level query (seen ++ (tracker ∷ [])) level in
    if is_failed tracker failed
    then next failed answer
    else if (query tracker).1
    then next (tracker ∷ failed) (query tracker).0
    else record {
      order = tracker ∷ (seen ++ level);
      failed = failed;
      answer = (query tracker).0;
      found = true;
    }

-- The outer loop.
unfoldable pub query_levels :
    (Text → Option TrackerResponse × Bool)
    → List (List Text)
    → List Text
    → Option TrackerResponse
    → Asked (List (List Text))
unfolding query_level
query_levels query [] failed answer = record {
  order = [];
  failed = failed;
  answer = answer;
  found = false;
}
query_levels query (level ∷ levels) failed answer =
    let rest = query_levels query levels in
    let first = query_level query [] level failed answer in
    if first.found
    then record {
      order = first.order ∷ levels;
      failed = first.failed;
      answer = first.answer;
      found = true;
    }
    else (let later = rest first.failed first.answer in
        record {
          order = first.order ∷ later.order;
          failed = later.failed;
          answer = later.answer;
          found = later.found;
        })

-- `queryTrackers`: the answer that `Announce` passes on, if it is not nil, and the client.
unfoldable pub query_trackers :
    (Text → Option TrackerResponse × Bool) → TrackerClient → Option TrackerResponse × TrackerClient
unfolding query_levels
query_trackers query tc =
    let asked = query_levels query tc.announce_list tc.failed_trackers none in
    (asked.answer, record { announce_list = asked.order; failed_trackers = asked.failed })
