-- ===== src/Tracker/First.antt =====
-- The tracker that answers is asked first the next time, and those that failed are not asked.
use rakoshare.Base.{◌≡◌, refl, inl, List, [], ◌∷◌, ◌++◌, Bool, false, Option, none, All}
use rakoshare.Tracker.{Text, TrackerResponse, TrackerClient, is_failed, query_trackers}
use rakoshare.Tracker.Blacklist.{
  failed_after, failed_levels, AreFailed, failed_levels-AreFailed, AreFailed-levels,
  failed_levels-same,
}
use rakoshare.Tracker.Asking.{
  IsDown, is_failed-up, query_levels-up, All-levels, All-IsDown-failed_after,
}

AreFailed-IsDown :
    (query : Text → Option TrackerResponse × Bool) (failed level : List Text)
    → AreFailed failed level
    → All (IsDown query failed) level
AreFailed-IsDown query failed [] h = tt
AreFailed-IsDown query failed (t ∷ level) (a, h) = (inl a, AreFailed-IsDown query failed level h)

AreFailed-levels-IsDown :
    (query : Text → Option TrackerResponse × Bool) (failed : List Text) (levels : List (List Text))
    → All (AreFailed failed) levels
    → All (All (IsDown query failed)) levels
AreFailed-levels-IsDown query failed [] h = tt
AreFailed-levels-IsDown query failed (level ∷ levels) (a, h) =
    (AreFailed-IsDown query failed level a, AreFailed-levels-IsDown query failed levels h)

is_failed-up_levels :
    (query : Text → Option TrackerResponse × Bool) (up : Text)
    → (query up).1 ≡ false
    → (levels : List (List Text)) (failed : List Text) → is_failed up failed ≡ false
    → All (All (IsDown query failed)) levels
    → is_failed up (failed_levels levels failed) ≡ false
is_failed-up_levels query up works [] failed free h = free
is_failed-up_levels query up works (level ∷ levels) failed free (a, h) =
    is_failed-up_levels query up works levels (failed_after level failed)
      (is_failed-up query up works level failed free a)
      (All-levels query up works level levels failed h)

All-IsDown-failed_levels :
    (query : Text → Option TrackerResponse × Bool) (up : Text)
    → (query up).1 ≡ false
    → (levels : List (List Text)) (level failed : List Text) → All (IsDown query failed) level
    → All (IsDown query (failed_levels levels failed)) level
All-IsDown-failed_levels query up works [] level failed h = h
All-IsDown-failed_levels query up works (l ∷ levels) level failed h =
    All-IsDown-failed_levels query up works levels level (failed_after l failed)
      (All-IsDown-failed_after query up works l level failed h)

-- Where every tracker before one that works and was not given up fails or was given up, `queryTrackers`
-- returns the answer of that one and moves it to the front of its level, and a second call with the
-- same answers of the trackers returns the same answer and changes nothing.
pub query_trackers-first :
    (query : Text → Option TrackerResponse × Bool) (tc : TrackerClient) (up : Text)
    (levels rest : List (List Text)) (before after : List Text)
    → (query up).1 ≡ false
    → tc.announce_list ≡ levels ++ ((before ++ (up ∷ after)) ∷ rest)
    → is_failed up tc.failed_trackers ≡ false
    → All (All (IsDown query tc.failed_trackers)) levels
    → All (IsDown query tc.failed_trackers) before
    → (tc' : TrackerClient) × (query_trackers query tc ≡ ((query up).0, tc'))
      × (tc'.announce_list ≡ levels ++ ((up ∷ (before ++ after)) ∷ rest))
      × (query_trackers query tc' ≡ ((query up).0, tc'))
unfolding query_trackers
query_trackers-first query tc up levels rest before after works e free h k =
    let failed = failed_after before (failed_levels levels tc.failed_trackers) in
    let order = levels ++ ((up ∷ (before ++ after)) ∷ rest) in
    let all =
      AreFailed-levels before (failed_levels levels tc.failed_trackers) levels
        (failed_levels-AreFailed levels tc.failed_trackers) in
    let free' =
      is_failed-up query up works before (failed_levels levels tc.failed_trackers)
        (is_failed-up_levels query up works levels tc.failed_trackers free h)
        (All-IsDown-failed_levels query up works levels before tc.failed_trackers k) in
    let again =
      query_levels-up query up works levels rest [] (before ++ after) failed none free'
        (AreFailed-levels-IsDown query failed levels all) tt in
    (
      record { announce_list = order; failed_trackers = failed },
      rw
          (
            query_trackers,
            e,
            query_levels-up query up works levels rest before after tc.failed_trackers none free h
                k,
          )
          refl,
      refl,
      rw (query_trackers, again, failed_levels-same levels failed all) refl,
    )

-- Where no tracker works, `queryTrackers` returns what the last tracker that it asked returned with its
-- error, so an answer that tells of a failure is passed on.
