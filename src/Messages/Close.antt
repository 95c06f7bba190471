-- ===== src/Messages/Close.antt =====
-- A peer that ends, or that sends what the session refuses, is given up.
use rakoshare.Base.{ℕ, ◌≡◌, refl, List, [], All, Bool, true, false, Option, some, Run, ok}
use rakoshare.Peer.{Message}
use rakoshare.Requesting.{Session}
use rakoshare.Serving.{Refusal}
use rakoshare.Download.{Torrent, Swarm}
use rakoshare.Download.Release.{IsInPiece, AreKept, remove_requests-AreKept}
use rakoshare.Download.Released.{Removed, requests_of, always, remove_requests-Removed}
use rakoshare.Messages.{do_message, close_peer, on_message}

-- The peer's connection is closed, it is off the list and it has no requests of the session.
pub record IsGone (w : Swarm) : Type 0 where
  pub closed : w.current.closed ≡ true
  pub unlisted : w.listed ≡ false
  pub idle : w.current.our_requests ≡ []

module _ (sha1 : List ℕ → List ℕ) (do_extension : Message → Torrent → Swarm → Run (Torrent × Swarm))
    (have_torrent : Bool) (fuel now : ℕ) (starts : ℕ × ℕ) (message : Option Message) (t : Torrent)
    (w : Swarm) where
  -- Where a message is refused, or is the nil message of a peer that has ended, the peer is closed
  -- and taken off the list, and its requests are given back: the count of a block that is not
  -- downloaded goes down by the number of the peer's requests of it, and no further than to zero, that
  -- of a downloaded block stays, and no piece stops or starts being active. This is where the active
  -- pieces that the peer has requests of have the blocks of these requests.
  pub on_message-IsGone :
      (r : Refusal) (t' : Torrent) (w' : Swarm)
      → do_message sha1 do_extension have_torrent fuel now starts message t w ≡ ok (some r, t', w')
      → All (λ (q : ℕ × ℕ). IsInPiece t'.serving.session.active_pieces q.0) w'.current.our_requests
      → (session : Session) × (w'' : Swarm) × (on_message sha1 do_extension have_torrent fuel now
            starts message t w
          ≡ ok (record t' { serving = record t'.serving { session = session } }, w''))
        × IsGone w''
        × AreKept session.active_pieces t'.serving.session.active_pieces
        × Removed (requests_of always w'.current.our_requests) t'.serving.session session
  unfolding on_message close_peer
  on_message-IsGone r t' w' e h =
      let (session, f, kept) = remove_requests-AreKept t'.serving.session w'.current h in
      (
        session,
        record w' {
          current = record w'.current { our_requests = []; closed = true };
          listed = false;
        },
        rw (on_message, e, close_peer, f) refl,
        record { closed = refl; unlisted = refl; idle = refl },
        kept,
        remove_requests-Removed t'.serving.session session w'.current _ f,
      )
