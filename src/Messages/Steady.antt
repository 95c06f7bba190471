-- ===== src/Messages/Steady.antt =====
-- What a session does with a message leaves its pieces intact.
use rakoshare.Base.{
  ℕ, ◌+◌, ◌<◌, ◌≡◌, refl, ap, List, [], ◌∷◌, length, ◌==◌, Bool, true, false, not, Option-cases,
  inl, inr, Option, none, some, Run, ok, Ensures, Ensures->>=, Ensures-if,
}
use rakoshare.Peer.{PeerState, Message}
use rakoshare.Pieces.{sum_size}
use rakoshare.Requesting.{Session}
use rakoshare.Requesting.Frame.{outline}
use rakoshare.Serving.{Serving, Refusal, on_request, on_cancel, on_bitfield, request_blocks_of}
use rakoshare.Serving.Frame.{
  view, view-session, Keeps, on_request-view, on_cancel-view, on_bitfield-view,
  request_blocks_of-view,
}
use rakoshare.Download.{Torrent, Swarm}
use rakoshare.Download.Returning.{do_choke}
use rakoshare.Download.Steady.{IsSteady, IsSteady-core, on_piece-IsSteady}
use rakoshare.Messages.{
  on_peer, on_choke, on_unchoke, general_message, extension_message, do_message, close_peer,
  on_message,
}
use rakoshare.Messages.Frame.{HaveAnswer, on_have-outline, remove_requests-outline}

-- No message of an extension.
abbrev pub IsPlain : Option Message → Type 0
IsPlain none = Unit
IsPlain (some []) = Unit
IsPlain (some (b ∷ msg)) = (b == 20) ≡ false

module _ (sha1 : List ℕ → List ℕ) (hash : (piece : List ℕ) → length (sha1 piece) ≡ sum_size)
    (do_extension : Message → Torrent → Swarm → Run (Torrent × Swarm)) where
  abbrev Steadily : Option Refusal × Torrent × Swarm → Type 0
  Steadily r = IsSteady sha1 r.1

  serving-IsSteady :
      (t : Torrent) (s : Serving)
      → view s ≡ view t.serving
      → IsSteady sha1 t
      → IsSteady sha1 (record t { serving = s })
  serving-IsSteady t s e steady =
      IsSteady-core sha1 t (record t { serving = s }) (ap (λ v. (v, t.total_size, t.sums)) e) steady

  pub session-IsSteady :
      (t : Torrent) (session : Session)
      → outline session ≡ outline t.serving.session
      → IsSteady sha1 t
      → IsSteady sha1 (record t { serving = record t.serving { session = session } })
  session-IsSteady t session e steady =
      serving-IsSteady t (record t.serving { session = session }) (view-session session t.serving e)
        steady

  on_peer-IsSteady :
      (f : Serving → PeerState → Run (Option Refusal × Serving × PeerState)) (t : Torrent)
      (w : Swarm)
      → Ensures (Keeps t.serving) (f t.serving w.current)
      → IsSteady sha1 t
      → Ensures Steadily (on_peer f t w)
  on_peer-IsSteady f t w keeps steady =
      Ensures->>= (Keeps t.serving) Steadily (f t.serving w.current) _ keeps
        λ (refusal, s, p) same. serving-IsSteady t s same steady

  on_choke-IsSteady :
      (msg : Message) (t : Torrent) (w : Swarm)
      → IsSteady sha1 t
      → Ensures Steadily (on_choke msg t w)
  unfolding on_choke do_choke
  on_choke-IsSteady msg t w steady =
      let p = record w.current { peer_choking = true } in
      Ensures-if Steadily (not (length msg == 1)) (ok (some Refusal.unexpected_length, t, w)) _
        steady
        (Ensures->>= (λ (r : Session × PeerState). outline r.0 ≡ outline t.serving.session) Steadily
          _ _ (remove_requests-outline t.serving.session p)
          λ (session, p') same. session-IsSteady t session same steady)

  on_unchoke-IsSteady :
      (fuel now : ℕ) (starts : ℕ × ℕ) (msg : Message) (t : Torrent) (w : Swarm)
      → IsSteady sha1 t
      → Ensures Steadily (on_unchoke fuel now starts msg t w)
  unfolding on_unchoke
  on_unchoke-IsSteady fuel now (first, second) msg t w steady =
      Ensures-if Steadily (not (length msg == 1)) (ok (some Refusal.unexpected_length, t, w)) _
        steady
        (on_peer-IsSteady
          (λ s p.
            request_blocks_of fuel now (first ∷ second ∷ []) s (record p { peer_choking = false }))
          t w
          (request_blocks_of-view (first ∷ second ∷ []) fuel now t.serving t.serving
            (record w.current { peer_choking = false }) refl)
          steady)

  general_message-IsSteady :
      (fuel now : ℕ) (starts : ℕ × ℕ) (id : ℕ) (msg : Message) (t : Torrent) (w : Swarm)
      → (id == 20) ≡ false
      → IsSteady sha1 t
      → t.good_pieces + 1 < t.serving.session.total_pieces
      → Ensures Steadily (general_message sha1 do_extension fuel now starts id msg t w)
  unfolding general_message
  general_message-IsSteady fuel now starts id msg t w plain steady more =
      Ensures-if Steadily (id == 0) _ _ (on_choke-IsSteady msg t w steady) (
        Ensures-if Steadily (id == 1) _ _ (on_unchoke-IsSteady fuel now starts msg t w steady) (
          Ensures-if Steadily (id == 2) _ _ steady (
            Ensures-if Steadily (id == 3) _ _ steady (
              Ensures-if Steadily (id == 4) _ _
                (Ensures->>= (λ (r : HaveAnswer). outline r.1 ≡ outline t.serving.session) Steadily
                  _ _ (on_have-outline fuel now msg t.serving.session w.current)
                  λ (refusal, session, p) same. session-IsSteady t session same steady)
                (Ensures-if Steadily (id == 5) _ _
                  (on_peer-IsSteady (λ s p. on_bitfield fuel now starts msg s p) t w
                    (on_bitfield-view fuel now starts msg t.serving w.current) steady)
                  (Ensures-if Steadily (id == 6) _ _
                    (on_peer-IsSteady (λ s p. on_request msg s p) t w
                      (on_request-view msg t.serving w.current) steady)
                    (Ensures-if Steadily (id == 7) _ _
                      (on_piece-IsSteady sha1 hash fuel now starts.0 msg t w steady more)
                      (Ensures-if Steadily (id == 8) _ _
                        (on_peer-IsSteady (λ s p. on_cancel msg s p) t w
                          (on_cancel-view msg t.serving w.current) steady)
                        (Ensures-if Steadily (id == 9) _ _ steady (rw plain steady))))))))))

  extension_message-IsSteady :
      (id : ℕ) (msg : Message) (t : Torrent) (w : Swarm)
      → (id == 20) ≡ false
      → IsSteady sha1 t
      → Ensures Steadily (extension_message sha1 do_extension id msg t w)
  unfolding extension_message
  extension_message-IsSteady id msg t w plain steady = Ensures-if Steadily (id == 0) _ _ steady (
      Ensures-if Steadily (id == 1) _ _ steady
        (Ensures-if Steadily (id == 5) _ _ steady (rw plain steady)))

  do_message-IsSteady :
      (have_torrent : Bool) (fuel now : ℕ) (starts : ℕ × ℕ) (message : Option Message) (t : Torrent)
      (w : Swarm)
      → IsPlain message
      → IsSteady sha1 t
      → t.good_pieces + 1 < t.serving.session.total_pieces
      → Ensures Steadily (do_message sha1 do_extension have_torrent fuel now starts message t w)
  unfolding do_message
  do_message-IsSteady have_torrent fuel now starts none t w plain steady more = steady
  do_message-IsSteady have_torrent fuel now starts (some []) t w plain steady more = steady
  do_message-IsSteady have_torrent fuel now starts (some (b ∷ msg)) t w plain steady more =
      Ensures-if Steadily have_torrent _ _
        (general_message-IsSteady fuel now starts b (b ∷ msg) t w plain steady more)
        (extension_message-IsSteady b (b ∷ msg) t w plain steady)

  close_peer-IsSteady :
      (t : Torrent) (w : Swarm)
      → IsSteady sha1 t
      → Ensures (λ (r : Torrent × Swarm). IsSteady sha1 r.0) (close_peer sha1 do_extension t w)
  unfolding close_peer
  close_peer-IsSteady t w steady =
      Ensures->>= (λ (r : Session × PeerState). outline r.0 ≡ outline t.serving.session)
        (λ (r : Torrent × Swarm). IsSteady sha1 r.0) _ _
        (remove_requests-outline t.serving.session w.current)
        λ (session, p) same. session-IsSteady t session same steady

  -- Whatever message a session takes, but that of an extension, it is steady after it.
  pub on_message-IsSteady :
      (have_torrent : Bool) (fuel now : ℕ) (starts : ℕ × ℕ) (message : Option Message) (t : Torrent)
      (w : Swarm)
      → IsPlain message
      → IsSteady sha1 t
      → t.good_pieces + 1 < t.serving.session.total_pieces
      → Ensures
          (λ (r : Torrent × Swarm). IsSteady sha1 r.0)
          (on_message sha1 do_extension have_torrent fuel now starts message t w)
  unfolding on_message
  on_message-IsSteady have_torrent fuel now starts message t w plain steady more =
      let P = λ (r : Torrent × Swarm). IsSteady sha1 r.0 in
      Ensures->>= Steadily P _ _
        (do_message-IsSteady have_torrent fuel now starts message t w plain steady more)
        λ (refusal, t', w') kept. elim (Option-cases refusal) [
          | inl e ↦ rw e kept
          | inr (r, e) ↦ rw e (close_peer-IsSteady t' w' kept)
        ]
