-- ===== src/Life.antt =====
-- torrent.go: the loop of `DoTorrent` over its ticks, and `Quit`. A time is in nanoseconds since the
-- zero time, and a zone is off by whole minutes. The messages that the loop takes are in Messages;
-- the log and the heartbeat are not modelled.
pub mod Turns
pub mod Idle
mod Tests
use rakoshare.Base.{
  ℕ, zero, suc, ◌+◌, ◌-◌, ◌*◌, ◌/◌, ◌%◌, ◌^◌, List, [], ◌∷◌, length, ltb, leb, ◌==◌, if◌then◌else◌,
  Bool, true, false, not, ◌&&◌, Option, none, some, Run, ok, panic, ◌>>=◌,
}
use rakoshare.Peer.{PeerState, send_message}
use rakoshare.Requesting.{Session, request_block}
use rakoshare.Download.Returning.{remove_requests, do_check_requests}

-- A peer of the list, with the times of its last message and of the last one to it.
pub record Member : Type 0 where
  pub state : PeerState
  pub last_read : ℕ
  pub last_write : ℕ

abbrev pub second : ℕ
second = 10 ^ 9

-- `peer.lastReadTime.Second()` is the second within its minute.
unfoldable pub is_timed_out : ℕ → Member → Bool
is_timed_out now m =
    not (m.last_read / second % 60 == 0) && ltb (3 * 60 * second) (now - m.last_read)

-- A round of `RequestBlock`, with the random start of each; its error is ignored.
unfoldable pub request_all : ℕ → ℕ → List (ℕ × Member) → Session → Run (Session × List Member)
unfolding request_block
request_all fuel now [] t = ok (t, [])
request_all fuel now ((start, m) ∷ members) t =
    request_block fuel now start t m.state >>= λ (err, t', p).
    request_all fuel now members t' >>= λ (t'', rest). ok (t'', record m { state = p } ∷ rest)

-- The members without their random starts.
abbrev pub members_of : List (ℕ × Member) → List Member
members_of [] = []
members_of ((start, m) ∷ members) = m ∷ members_of members

-- The case of `rechokeChan`.
unfoldable pub rechoke : ℕ → ℕ → List (ℕ × Member) → Session → Run (Session × List Member)
unfolding request_all
rechoke fuel now members t =
    if ltb (length t.active_pieces) (length members + 1)
    then request_all fuel now members t
    else ok (t, members_of members)

-- `keepAlive` of peer.go.
unfoldable pub keep_alive : ℕ → Member → Member
unfolding send_message
keep_alive now m =
    if leb (2 * 60 * second) (now - m.last_write)
    then record m { state = send_message [] m.state; last_write = now }
    else m

-- The case of `keepAliveChan`: the session and the peers that stay.
unfoldable pub check_members : ℕ → List Member → Session → Run (Session × List Member)
unfolding is_timed_out remove_requests do_check_requests keep_alive
check_members now [] t = ok (t, [])
check_members now (m ∷ members) t =
    let rest = check_members now members in
    if is_timed_out now m
    then (remove_requests t m.state >>= λ (t', p). rest t')
    else (do_check_requests now t m.state >>= λ t'.
        rest t' >>= λ (t'', stay). ok (t'', keep_alive now m ∷ stay))

-- `Quit` after the loop has ended: every peer is closed.
unfoldable pub quit : List Member → Session → Run Session
unfolding remove_requests
quit [] t = ok t
quit (m ∷ members) t = remove_requests t m.state >>= λ (t', p). quit members t'
