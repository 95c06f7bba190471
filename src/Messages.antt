-- ===== src/Messages.antt =====
-- torrent.go: what a session does with a message (`DoMessage`, `generalMessage`, `extensionMessage`)
-- and with a peer that ends (`ClosePeer`, and the first case of the loop of `DoTorrent`).
-- `do_extension` stands for `DoExtension`, whose errors are logged. `starts` are the random starts
-- of the requests for further blocks.
pub mod Have
pub mod Close
pub mod Frame
pub mod Steady
mod Tests
use rakoshare.Base.{
  ℕ, zero, suc, ◌+◌, List, [], ◌∷◌, length, drop, leb, ltb, ◌==◌, if◌then◌else◌, Bool, true, false,
  not, ◌&&◌, ◌||◌, Option, none, some, pos, Run, ok, panic, ◌>>=◌,
}
use rakoshare.Bitset.{Bitset, is_set, set_bit, is_within_limits}
use rakoshare.Peer.{PeerState, Message, uint32, set_choke, set_interested}
use rakoshare.Requesting.{Session, put, new_active, request_block2}
use rakoshare.Serving.{
  Serving, Refusal, index_of, on_request, on_cancel, on_bitfield, request_blocks_of,
}
use rakoshare.Download.{Torrent, Swarm, on_piece}
use rakoshare.Download.Returning.{do_choke, remove_requests}

abbrev pub Handled : Type 0
Handled = Run (Option Refusal × Torrent × Swarm)

-- Where the case changes the session and the peer alone.
abbrev pub on_peer :
    (Serving → PeerState → Run (Option Refusal × Serving × PeerState)) → Torrent → Swarm → Handled
on_peer f t w = f t.serving w.current >>= λ (refusal, s, p).
    ok (refusal, record t { serving = s }, record w { current = p })

unfoldable pub on_choke : Message → Torrent → Swarm → Handled
unfolding do_choke
on_choke msg t w =
    if not (length msg == 1)
    then ok (some Refusal.unexpected_length, t, w)
    else (do_choke t.serving.session w.current >>= λ (session, p). ok (
      none,
      record t { serving = record t.serving { session = session } },
      record w { current = p },
    ))

unfoldable pub on_unchoke : ℕ → ℕ → ℕ × ℕ → Message → Torrent → Swarm → Handled
unfolding request_blocks_of
on_unchoke fuel now (first, second) msg t w =
    if not (length msg == 1)
    then ok (some Refusal.unexpected_length, t, w)
    else on_peer
        (λ s p.
          request_blocks_of fuel now (first ∷ second ∷ []) s (record p { peer_choking = false }))
        t w

unfoldable pub on_interested : Bool → Message → PeerState → Option Refusal × PeerState
unfolding set_choke
on_interested interested msg p =
    if not (length msg == 1)
    then (some Refusal.unexpected_length, p)
    else if interested
    then (none, set_choke false (record p { peer_interested = true }))
    else (none, record p { peer_interested = false })

-- The piece that a HAVE message tells of becomes active, whether it was or not, and is requested.
unfoldable pub ask_for : ℕ → ℕ → ℕ → Session → PeerState → Run (Session × PeerState)
unfolding set_interested new_active put request_block2
ask_for fuel now piece t p =
    request_block2 fuel now piece false
      (record t { active_pieces = put piece (new_active t piece) t.active_pieces })
      (set_interested true p)
    >>= λ (err, t', p'). ok (t', p')

unfoldable pub on_have :
    ℕ → ℕ → Message → Session → PeerState → Run (Option Refusal × Session × PeerState)
unfolding ask_for uint32
on_have fuel now msg t p =
    if not (length msg == 5) then ok (some Refusal.unexpected_length, t, p) else elim p.have [
      | none ↦ panic
      | some have ↦
          if not (is_within_limits have (index_of msg))
          then ok (some Refusal.have_out_of_range, t, p)
          else (set_bit have (pos (index_of msg)) >>= λ have'.
              let p' = record p { have = some have' } in
              if p.am_interested
              then ok (none, t, p')
              else (is_set t.piece_set (pos (index_of msg)) >>= λ ours.
                  if ours
                  then ok (none, t, p')
                  else (ask_for fuel now (index_of msg) t p' >>= λ (t', p''). ok (none, t', p''))))
    ]

unfoldable pub on_port : Message → Option Refusal
on_port msg = if not (length msg == 3) then some Refusal.unexpected_length else none

module _ (sha1 : List ℕ → List ℕ)
    (do_extension : Message → Torrent → Swarm → Run (Torrent × Swarm)) where
  abbrev pub extend : Message → Torrent → Swarm → Handled
  extend msg t w = do_extension msg t w >>= λ (t', w'). ok (none, t', w')

  unfoldable pub general_message : ℕ → ℕ → ℕ × ℕ → ℕ → Message → Torrent → Swarm → Handled
  unfolding on_choke on_unchoke on_interested on_have on_bitfield on_request on_piece on_cancel
      on_port
  general_message fuel now starts id msg t w =
      if id == 0
      then on_choke msg t w
      else if id == 1
      then on_unchoke fuel now starts msg t w
      else if id == 2
      then (let (refusal, p) = on_interested true msg w.current in
          ok (refusal, t, record w { current = p }))
      else if id == 3
      then (let (refusal, p) = on_interested false msg w.current in
          ok (refusal, t, record w { current = p }))
      else if id == 4
      then (on_have fuel now msg t.serving.session w.current >>= λ (refusal, session, p). ok (
        refusal,
        record t { serving = record t.serving { session = session } },
        record w { current = p },
      ))
      else if id == 5
      then on_peer (λ s p. on_bitfield fuel now starts msg s p) t w
      else if id == 6
      then on_peer (λ s p. on_request msg s p) t w
      else if id == 7
      then on_piece sha1 fuel now starts.0 msg t w
      else if id == 8
      then on_peer (λ s p. on_cancel msg s p) t w
      else if id == 9
      then ok (on_port msg, t, w)
      else if id == 20
      then extend (drop 1 msg) t w
      else ok (some Refusal.unknown_message, t, w)

  -- Without the metadata: a bitfield is kept for later.
  unfoldable pub extension_message : ℕ → Message → Torrent → Swarm → Handled
  unfolding set_choke
  extension_message id msg t w =
      if id == 0
      then ok (none, t, record w { current = record w.current { peer_choking = true } })
      else if id == 1
      then ok (none, t, record w { current = record w.current { peer_choking = false } })
      else if id == 5
      then ok (
        none,
        t,
        record w {
          current = record (set_choke false w.current) {
            temporary_bitfield = some (drop 1 msg);
            can_receive_bitfield = false;
          };
        },
      )
      else if id == 20
      then extend (drop 1 msg) t w
      else ok (none, t, w)

  -- `none` is the nil message of a reader or a writer that has ended.
  unfoldable pub do_message : Bool → ℕ → ℕ → ℕ × ℕ → Option Message → Torrent → Swarm → Handled
  unfolding general_message extension_message
  do_message have_torrent fuel now starts none t w = ok (some Refusal.exited, t, w)
  do_message have_torrent fuel now starts (some []) t w = ok (none, t, w)
  do_message have_torrent fuel now starts (some (b ∷ msg)) t w =
      if have_torrent
      then general_message fuel now starts b (b ∷ msg) t w
      else extension_message b (b ∷ msg) t w

  -- The session's list loses the peer, and its connection is closed.
  unfoldable pub close_peer : Torrent → Swarm → Run (Torrent × Swarm)
  unfolding remove_requests
  close_peer t w = remove_requests t.serving.session w.current >>= λ (session, p). ok (
    record t { serving = record t.serving { session = session } },
    record w { current = record p { closed = true }; listed = false },
  )

  -- The case of the loop of `DoTorrent` that takes a message.
  unfoldable pub on_message :
      Bool → ℕ → ℕ → ℕ × ℕ → Option Message → Torrent → Swarm → Run (Torrent × Swarm)
  unfolding do_message close_peer
  on_message have_torrent fuel now starts message t w =
      do_message have_torrent fuel now starts message t w >>= λ (refusal, t', w'). elim refusal [
        | some r ↦ close_peer t' w'
        | none ↦ ok (t', w')
      ]
