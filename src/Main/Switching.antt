-- ===== src/Main/Switching.antt =====
-- Which session runs: never two at once, and one that was started for the infohash that is announced.
use rakoshare.Base.{
  ℕ, ◌≡◌, refl, List, [], ◌∷◌, arith, false, Bool-cases, Option-cases, Option, none, some, inl, inr,
  get_elem?, Run, map, if◌then◌else◌, ok, panic, out_of_fuel, Ensures,
}
use rakoshare.Files.{name_eq}
use rakoshare.Control.{Text, Wire, ControlPeer, ControlSession, ControlError, set_current, Announce}
use rakoshare.Control.Incoming.{control_message}
use rakoshare.ShareSession.{Sql}
use rakoshare.Main.{
  TorrentSessionI, Program, MainEvent, Outcome, is_running, magnet, quit_current, is_current,
  switch, on_connection, on_discovery, on_announce, on_new_peer, on_meta_info, after_message,
  control_turn, next_turn, main_turn, main_loop,
}
use rakoshare.Main.Sequence.{
  after, IsFrom, linked, saved, hinted, accepted, IsFollowing, IsHandled, IsInStep, WhenGoing,
  AreInStep, quit_current-calls, quit_current-control, open_session-IsFollowing,
}
use rakoshare.Main.Infohash.{control_message-current_ih, set_current-current_ih}

module _ {S C E : Type 0} (session : TorrentSessionI S C E) (Saved : Text → Text → Type 0) where
  switch-IsHandled :
      (wire : Wire) (env : E) (ih torrent : Text) (peers : List Text) (p : Program S)
      → after false p.calls ≡ some (is_running p.current)
      → ((s : S) → session.new_torrent_session env torrent ≡ some s → IsFrom session Saved ih s)
      → IsHandled session Saved (switch session wire env ih torrent peers p)
  unfolding switch
  switch-IsHandled wire env ih torrent peers p alone fits =
      elim (Option-cases (set_current wire ih p.control p.neighbours).0) [
        | inr (e, f) ↦ rw (switch, f) tt
        | inl f ↦
            let (error, control, neighbours) = set_current wire ih p.control p.neighbours in
            let p' = record p { control = control; neighbours = neighbours } in
            let now : control.current_ih ≡ ih =
              set_current-current_ih wire ih p.control p.neighbours f in
            rw (switch, f)
              (open_session-IsFollowing session Saved env torrent peers (quit_current p')
                (quit_current-calls p' alone) λ s e. rw (quit_current-control p', now) (fits s e))
      ]

  -- What leaves the calls, the session and the announced infohash.
  IsFollowing-other :
      (p p' : Program S)
      → p'.calls ≡ p.calls
      → p'.current ≡ p.current
      → p'.control.current_ih ≡ p.control.current_ih
      → IsFollowing session Saved p
      → IsFollowing session Saved p'
  IsFollowing-other p p' calls current ih follows = record {
    alone = rw (calls, current) follows.alone;
    source = rw (current, ih) follows.source;
  }

  -- What changes the session that runs, but not what it was started for.
  IsFollowing-session :
      (p : Program S) (s s' : S)
      → p.current ≡ some s
      → (IsFrom session Saved p.control.current_ih s → IsFrom session Saved p.control.current_ih s')
      → IsFollowing session Saved p
      → IsFollowing session Saved (record p { current = some s' })
  IsFollowing-session p s s' e kept follows = record {
    alone = rw e at follows.alone;
    source = kept (rw e at follows.source);
  }

  on_connection-IsFollowing :
      (c : C) (p : Program S)
      → IsFollowing session Saved p
      → IsFollowing session Saved (on_connection session c p)
  unfolding on_connection
  on_connection-IsFollowing c p follows =
      let other =
        if name_eq p.share_hash (session.conn_hash c)
        then record p { neighbours = session.accept_share_peer c p.neighbours }
        else p in
      let kept : IsFollowing session Saved other =
        IsFollowing-other p other (ground arith) (ground arith) (ground arith) follows in
      elim (Option-cases p.current) [
        | inl e ↦ rw (on_connection, e) kept
        | inr (s, e) ↦ elim (Bool-cases (name_eq (session.info_hash s) (session.conn_hash c))) [
          | inl f ↦
              rw (on_connection, e, f)
                (IsFollowing-session p s (session.accept_new_peer c s) e (accepted c s) follows)
          | inr f ↦ rw (on_connection, e, f) kept
        ]
      ]

  on_discovery-IsFollowing :
      (digits peer : Text) (p : Program S)
      → IsFollowing session Saved p
      → IsFollowing session Saved (on_discovery session digits peer p)
  unfolding on_discovery
  on_discovery-IsFollowing digits peer p =
      IsFollowing-other p (on_discovery session digits peer p) (ground arith) (ground arith)
        (ground arith)

  on_new_peer-IsFollowing :
      (env : E) (peer : Text) (p : Program S)
      → IsFollowing session Saved p
      → IsFollowing session Saved (on_new_peer session env peer p)
  unfolding on_new_peer
  on_new_peer-IsFollowing env peer p follows = elim (Option-cases p.current) [
    | inl e ↦
        rw (on_new_peer, e)
          (open_session-IsFollowing session Saved env _ (peer ∷ []) p (rw e at follows.alone)
            λ s f. linked env s f)
    | inr (s, e) ↦
        rw (on_new_peer, e)
          (IsFollowing-session p s (session.hint_new_peer peer s) e (hinted peer s) follows)
  ]

  on_meta_info-IsFollowing :
      (sql : Sql) (bytes : Option (List ℕ)) (ih time : Text) (p : Program S)
      → IsFollowing session Saved p
      → IsFollowing session Saved (on_meta_info session sql bytes ih time p)
  unfolding on_meta_info
  on_meta_info-IsFollowing sql bytes ih time p =
      IsFollowing-other p (on_meta_info session sql bytes ih time p) (ground arith) (ground arith)
        (ground arith)

  on_announce-IsHandled :
      (wire : Wire) (env : E) (p : Program S)
      → IsFollowing session Saved p
      → IsHandled session Saved (on_announce session wire env p)
  unfolding on_announce
  on_announce-IsHandled wire env p follows = go p.control.torrents refl
    where
      go :
          (torrents : List Announce)
          → p.control.torrents ≡ torrents
          → IsHandled session Saved (on_announce session wire env p)
      go [] e = rw (on_announce, e) follows
      go (a ∷ torrents) e =
          let p' = record p { control = record p.control { torrents = torrents } } in
          elim (Bool-cases (is_current session a.infohash p')) [
            | inl f ↦ rw (on_announce, e, f) (IsFollowing-other p p' refl refl refl follows)
            | inr f ↦
                rw (on_announce, e, f)
                  (switch-IsHandled wire env a.infohash (magnet (session.hex a.infohash))
                    (a.peer ∷ []) p' follows.alone λ s g. linked env s g)
          ]

  after_message-IsHandled :
      (k : ℕ) (r : Run (Option ControlError × ControlPeer × ControlSession)) (p : Program S)
      → Ensures
          (λ (r : Option ControlError × ControlPeer × ControlSession).
            r.2.current_ih ≡ p.control.current_ih)
          r
      → IsFollowing session Saved p
      → IsHandled session Saved (after_message k r p)
  unfolding after_message
  after_message-IsHandled k (ok (none, q, control)) p same follows =
      IsFollowing-other p _ refl refl same follows
  after_message-IsHandled k (ok (some e, q, control)) p same follows =
      IsFollowing-other p _ refl refl same follows
  after_message-IsHandled k panic p same follows = tt
  after_message-IsHandled k out_of_fuel p same follows = tt

  control_turn-IsHandled :
      (wire : Wire) (k : ℕ) (msg : Option (List ℕ)) (p : Program S)
      → IsFollowing session Saved p
      → IsHandled session Saved (control_turn wire k msg p)
  unfolding control_turn
  control_turn-IsHandled wire k msg p follows = elim (Option-cases (get_elem? p.neighbours k)) [
    | inl e ↦ rw (control_turn, e) follows
    | inr (q, e) ↦
        rw (control_turn, e)
          (after_message-IsHandled k (control_message wire msg q p.control) p
            (control_message-current_ih wire msg q p.control) follows)
  ]

  main_turn-IsHandled :
      (wire : Wire) (sql : Sql) (event : MainEvent C E) (p : Program S)
      → IsFollowing session Saved p
      → IsInStep session Saved event p
      → IsHandled session Saved (main_turn session wire sql event p)
  unfolding main_turn
  main_turn-IsHandled wire sql MainEvent.interrupted p follows fits =
      quit_current-calls p follows.alone
  main_turn-IsHandled wire sql (MainEvent.connected c) p follows fits =
      on_connection-IsFollowing c p follows
  main_turn-IsHandled wire sql (MainEvent.discovered digits peer) p follows fits =
      on_discovery-IsFollowing digits peer p follows
  main_turn-IsHandled wire sql (MainEvent.pinged env ih) p follows fits =
      elim (Bool-cases (is_current session ih p)) [
        | inl e ↦ rw (main_turn, e) follows
        | inr e ↦
            rw (main_turn, e)
              (switch-IsHandled wire env ih _ (map (λ (q : ControlPeer). q.address) p.neighbours) p
                follows.alone λ s f. saved env _ s fits f)
      ]
  main_turn-IsHandled wire sql (MainEvent.announced env) p follows fits =
      on_announce-IsHandled wire env p follows
  main_turn-IsHandled wire sql (MainEvent.new_peer env peer) p follows fits =
      on_new_peer-IsFollowing env peer p follows
  main_turn-IsHandled wire sql (MainEvent.meta_info bytes ih time) p follows fits =
      on_meta_info-IsFollowing sql bytes ih time p follows
  main_turn-IsHandled wire sql (MainEvent.heard k msg) p follows fits =
      control_turn-IsHandled wire k msg p follows

  next_turn-IsHandled :
      (P : Program S → Type 0) (o : Outcome S) (rest : Program S → Outcome S)
      → IsHandled session Saved o
      → WhenGoing session Saved P o
      → ((p : Program S) → IsFollowing session Saved p → P p → IsHandled session Saved (rest p))
      → IsHandled session Saved (next_turn o rest)
  unfolding next_turn
  next_turn-IsHandled P (Outcome.going p) rest follows h k = k p follows h
  next_turn-IsHandled P (Outcome.done p) rest ended h k = ended
  next_turn-IsHandled P Outcome.exited rest ended h k = tt

  -- For any relation that has each infohash which the watcher tells of with the torrent that is in the
  -- database then: if the loop begins with sessions begun and ended one after the other, of which the
  -- one that runs was started for the infohash that the control session announces, from the link of
  -- that infohash or from a torrent that the relation has for it, and was only given peers since, that
  -- stays so through any events; and once the program is interrupted every session that was begun is
  -- ended.
  pub main_loop-IsHandled :
      (wire : Wire) (sql : Sql) (events : List (MainEvent C E)) (p : Program S)
      → IsFollowing session Saved p
      → AreInStep session Saved wire sql events p
      → IsHandled session Saved (main_loop session wire sql events p)
  unfolding main_loop
  main_loop-IsHandled wire sql [] p follows fits = follows
  main_loop-IsHandled wire sql (event ∷ events) p follows (fit, fits) =
      next_turn-IsHandled (AreInStep session Saved wire sql events)
        (main_turn session wire sql event p) _ (main_turn-IsHandled wire sql event p follows fit)
        fits λ p' follows' fits'. main_loop-IsHandled wire sql events p' follows' fits'
