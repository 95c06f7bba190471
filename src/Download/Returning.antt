-- ===== src/Download/Returning.antt =====
-- torrent.go: giving requests back (`removeRequests`, `doChoke`, `doCheckRequests`).
use rakoshare.Base.{
  ℕ, zero, suc, ◌+◌, ◌*◌, ◌/◌, ◌%◌, ◌^◌, List, [], ◌∷◌, ltb, if◌then◌else◌, Bool, true, none, some,
  ℤ, pos, Run, ok, panic, ◌>>=◌,
}
use rakoshare.Peer.{PeerState, standard_block_length}
use rakoshare.Requesting.{Session, lookup, put}

-- `v.downloaderCount[block]--` where it is above zero; an index out of range panics.
unfoldable pub release : List ℤ → ℕ → Run (List ℤ)
release [] block = panic
release (pos (suc n) ∷ counts) zero = ok (pos n ∷ counts)
release (v ∷ counts) zero = ok (v ∷ counts)
release (v ∷ counts) (suc block) = release counts block >>= λ counts'. ok (v ∷ counts')

unfoldable pub remove_request : ℕ → ℕ → Session → Run Session
unfolding release put
remove_request piece block t = elim (lookup piece t.active_pieces) [
  | none ↦ ok t
  | some v ↦ release v.downloader_count block >>= λ counts. ok (record t {
    active_pieces = put piece (record v { downloader_count = counts }) t.active_pieces;
  })
]

-- The loop of `removeRequests`, or with a time that of `doCheckRequests`.
unfoldable pub remove_each : (ℕ → Bool) → List (ℕ × ℕ) → Session → Run Session
unfolding remove_request
remove_each due [] t = ok t
remove_each due ((key, time) ∷ requests) t =
    let rest = remove_each due requests in
    if due time
    then (remove_request (key / 2 ^ 32) (key % 2 ^ 32 / standard_block_length) t >>= λ t'. rest t')
    else rest t

unfoldable pub remove_requests : Session → PeerState → Run (Session × PeerState)
unfolding remove_each
remove_requests t p =
    remove_each (λ time. true) p.our_requests t >>= λ t'. ok (t', record p { our_requests = [] })

unfoldable pub do_choke : Session → PeerState → Run (Session × PeerState)
unfolding remove_requests
do_choke t p = remove_requests t (record p { peer_choking = true })

-- A request older than 30 seconds is given back; times are in nanoseconds.
unfoldable pub do_check_requests : ℕ → Session → PeerState → Run Session
unfolding remove_each
do_check_requests now t p = remove_each (λ time. ltb (time + 30 * 10 ^ 9) now) p.our_requests t
