-- ===== src/Life/Turns.antt =====
-- The turns of a session's loop, and that its pieces stay intact through all of them.
use rakoshare.Base.{
  ℕ, ◌+◌, ◌<◌, ◌≡◌, refl, ◌∙◌, List, [], ◌∷◌, length, ltb, Bool, Option, Run, ok, Ensures,
  Ensures->>=, Ensures-if, Ensures-eq_ok,
}
use rakoshare.Peer.{PeerState, Message}
use rakoshare.Pieces.{sum_size}
use rakoshare.Requesting.{Session, Requested, request_block}
use rakoshare.Requesting.Frame.{outline, request_block-outline}
use rakoshare.Download.{Torrent, Swarm}
use rakoshare.Download.Returning.{remove_requests, do_check_requests}
use rakoshare.Download.Steady.{IsSteady}
use rakoshare.Messages.{on_message}
use rakoshare.Messages.Steady.{IsPlain, session-IsSteady, on_message-IsSteady}
use rakoshare.Messages.Frame.{remove_requests-outline, do_check_requests-outline}
use rakoshare.Life.{Member, is_timed_out, request_all, members_of, rechoke, check_members}

abbrev Kept : Session → Session × List Member → Type 0
Kept t r = outline r.0 ≡ outline t

request_all-outline :
    (members : List (ℕ × Member)) (fuel now : ℕ) (t0 t : Session)
    → outline t ≡ outline t0
    → Ensures (Kept t0) (request_all fuel now members t)
unfolding request_all
request_all-outline [] fuel now t0 t e = e
request_all-outline ((start, m) ∷ members) fuel now t0 t e =
    Ensures->>= (λ (r : Requested). outline r.1 ≡ outline t) (Kept t0)
      (request_block fuel now start t m.state) _ (request_block-outline fuel now start t m.state)
      λ (err, t', p) same.
        Ensures->>= (Kept t0) (Kept t0) (request_all fuel now members t') _
          (request_all-outline members fuel now t0 t' (same ∙ e)) λ r kept. kept

rechoke-outline :
    (fuel now : ℕ) (members : List (ℕ × Member)) (t : Session)
    → Ensures (Kept t) (rechoke fuel now members t)
unfolding rechoke
rechoke-outline fuel now members t =
    Ensures-if (Kept t) (ltb (length t.active_pieces) (length members + 1)) _
      (ok (t, members_of members)) (request_all-outline members fuel now t t refl) refl

check_members-outline :
    (members : List Member) (now : ℕ) (t0 t : Session)
    → outline t ≡ outline t0
    → Ensures (Kept t0) (check_members now members t)
unfolding check_members
check_members-outline [] now t0 t e = e
check_members-outline (m ∷ members) now t0 t e =
    Ensures-if (Kept t0) (is_timed_out now m) _ _
      (Ensures->>= (λ (r : Session × PeerState). outline r.0 ≡ outline t) (Kept t0)
        (remove_requests t m.state) _ (remove_requests-outline t m.state)
        λ (t', p) same. check_members-outline members now t0 t' (same ∙ e))
      (Ensures->>= (λ (t' : Session). outline t' ≡ outline t) (Kept t0)
        (do_check_requests now t m.state) _ (do_check_requests-outline now t m.state)
        λ t' same.
          Ensures->>= (Kept t0) (Kept t0) (check_members now members t') _
            (check_members-outline members now t0 t' (same ∙ e)) λ r kept. kept)

module _ (sha1 : List ℕ → List ℕ)
    (do_extension : Message → Torrent → Swarm → Run (Torrent × Swarm)) where
  -- A turn of the loop that returns. The peers, the times and the random numbers are the
  -- environment's; a message is none of an extension.
  pub data LoopTurn (t : Torrent) : Torrent → Type 0 where
    message :
        (have_torrent : Bool) (fuel now : ℕ) (starts : ℕ × ℕ) (msg : Option Message) (w w' : Swarm)
        {t' : Torrent}
        → IsPlain msg
        → on_message sha1 do_extension have_torrent fuel now starts msg t w ≡ ok (t', w')
        → LoopTurn t t'
    rechoked :
        (fuel now : ℕ) (members : List (ℕ × Member)) (session : Session) (left : List Member)
        → rechoke fuel now members t.serving.session ≡ ok (session, left)
        → LoopTurn t (record t { serving = record t.serving { session = session } })
    checked :
        (now : ℕ) (members : List Member) (session : Session) (left : List Member)
        → check_members now members t.serving.session ≡ ok (session, left)
        → LoopTurn t (record t { serving = record t.serving { session = session } })

  -- A run of turns, each of which begins with two pieces missing at least.
  pub data Reach (t : Torrent) : Torrent → Type 0 where
    here : Reach t t
    next :
        {u v : Torrent}
        → Reach t u
        → u.good_pieces + 1 < u.serving.session.total_pieces
        → LoopTurn u v
        → Reach t v

  module _ (hash : (piece : List ℕ) → length (sha1 piece) ≡ sum_size) where
    LoopTurn-IsSteady :
        {t u : Torrent}
        → LoopTurn t u
        → t.good_pieces + 1 < t.serving.session.total_pieces
        → IsSteady sha1 t
        → IsSteady sha1 u
    LoopTurn-IsSteady {t} {u} (message have_torrent fuel now starts msg w w' plain e) more steady =
        Ensures-eq_ok (λ (r : Torrent × Swarm). IsSteady sha1 r.0)
          (on_message sha1 do_extension have_torrent fuel now starts msg t w) (u, w')
          (on_message-IsSteady sha1 hash do_extension have_torrent fuel now starts msg t w plain
            steady more)
          e
    LoopTurn-IsSteady {t} (rechoked fuel now members session left e) more steady =
        session-IsSteady sha1 hash do_extension t session
          (Ensures-eq_ok (Kept t.serving.session) (rechoke fuel now members t.serving.session)
            (session, left) (rechoke-outline fuel now members t.serving.session) e)
          steady
    LoopTurn-IsSteady {t} (checked now members session left e) more steady =
        session-IsSteady sha1 hash do_extension t session
          (Ensures-eq_ok (Kept t.serving.session) (check_members now members t.serving.session)
            (session, left)
            (check_members-outline members now t.serving.session t.serving.session refl) e)
          steady

    -- Where a sum has 20 bytes: a session that is sound and whose pieces are intact stays so
    -- through every run of turns of its loop that return and begin with two pieces missing at
    -- least, of which none takes a message of an extension.
    pub Reach-IsSteady : {t u : Torrent} → IsSteady sha1 t → Reach t u → IsSteady sha1 u
    Reach-IsSteady steady here = steady
    Reach-IsSteady steady (next r more turn) = LoopTurn-IsSteady turn more (Reach-IsSteady steady r)
