-- ===== src/Main/Trust.antt =====
-- Which infohashes the program comes to announce: those of the watcher and those that the share's key
-- has signed.
use rakoshare.Base.{
  ℕ, ◌≡◌, refl, List, [], ◌∷◌, arith, All, Bool-cases, Option-cases, Option, none, some, inl, inr,
  get_elem?, Run, map, ok, panic, out_of_fuel, Ensures,
}
use rakoshare.Control.{Text, Wire, ControlPeer, ControlSession, ControlError, Announce, set_current}
use rakoshare.Control.Incoming.{control_message}
use rakoshare.ShareSession.{Sql}
use rakoshare.Main.{
  TorrentSessionI, Program, MainEvent, Outcome, quit_current, open_session, is_current, switch,
  on_connection, on_discovery, on_announce, on_new_peer, on_meta_info, after_message, control_turn,
  next_turn, main_turn, main_loop, magnet,
}
use rakoshare.Main.Sequence.{quit_current-control}
use rakoshare.Main.Signed.{IsSigned, IsTrusting, control_message-IsTrusting, set_current-IsTrusting}

module _ {S C E : Type 0} (session : TorrentSessionI S C E) where
  -- The control session of a program that goes on or is interrupted.
  abbrev pub OfControl : (ControlSession → Type 0) → Outcome S → Type 0
  OfControl T (Outcome.going p) = T p.control
  OfControl T (Outcome.done p) = T p.control
  OfControl T Outcome.exited = Unit

  -- What the watcher tells of is in `P`.
  abbrev pub IsKnown : (Text → Type 0) → MainEvent C E → Type 0
  IsKnown P (MainEvent.pinged env ih) = P ih
  IsKnown P event = Unit

  open_session-control :
      (env : E) (torrent : Text) (peers : List Text) (p : Program S)
      → (open_session session env torrent peers p).control ≡ p.control
  unfolding open_session
  open_session-control env torrent peers p = ground arith

  on_connection-control : (c : C) (p : Program S) → (on_connection session c p).control ≡ p.control
  unfolding on_connection
  on_connection-control c p = ground arith

  on_discovery-control :
      (digits peer : Text) (p : Program S)
      → (on_discovery session digits peer p).control ≡ p.control
  unfolding on_discovery
  on_discovery-control digits peer p = ground arith

  on_new_peer-control :
      (env : E) (peer : Text) (p : Program S) → (on_new_peer session env peer p).control ≡ p.control
  unfolding on_new_peer
  on_new_peer-control env peer p =
      ground
        (arith, open_session-control env (magnet (session.hex p.control.current_ih)) (peer ∷ []) p)

  on_meta_info-control :
      (sql : Sql) (bytes : Option (List ℕ)) (ih time : Text) (p : Program S)
      → (on_meta_info session sql bytes ih time p).control ≡ p.control
  unfolding on_meta_info
  on_meta_info-control sql bytes ih time p = ground arith

  module _ (wire : Wire) (key : List ℕ) (P : Text → Type 0) where
    switch-OfControl :
        (env : E) (ih torrent : Text) (peers : List Text) (p : Program S)
        → P ih
        → IsTrusting wire key P p.control
        → OfControl (IsTrusting wire key P) (switch session wire env ih torrent peers p)
    unfolding switch
    switch-OfControl env ih torrent peers p known h =
        elim (Option-cases (set_current wire ih p.control p.neighbours).0) [
          | inr (e, f) ↦ rw (switch, f) tt
          | inl f ↦
              let (error, control, neighbours) = set_current wire ih p.control p.neighbours in
              let p' = record p { control = control; neighbours = neighbours } in
              rw
                (
                  switch,
                  f,
                  open_session-control env torrent peers (quit_current p'),
                  quit_current-control p',
                )
                (set_current-IsTrusting wire key P ih p.control p.neighbours known h)
        ]

    on_announce-OfControl :
        (env : E) (p : Program S)
        → ((ih : Text) → IsSigned wire key ih → P ih)
        → IsTrusting wire key P p.control
        → OfControl (IsTrusting wire key P) (on_announce session wire env p)
    unfolding on_announce
    on_announce-OfControl env p known h = go p.control.torrents refl
      where
        go :
            (torrents : List Announce)
            → p.control.torrents ≡ torrents
            → OfControl (IsTrusting wire key P) (on_announce session wire env p)
        go [] e = rw (on_announce, e) h
        go (a ∷ torrents) e =
            let control = record p.control { torrents = torrents } in
            let p' = record p { control = control } in
            let (first, rest) = rw e at h.signed in
            let h' : IsTrusting wire key P control = record {
              same_key = h.same_key;
              signed = rest;
              trusted = h.trusted;
            } in
            elim (Bool-cases (is_current session a.infohash p')) [
              | inl f ↦ rw (on_announce, e, f) h'
              | inr f ↦
                  rw (on_announce, e, f)
                    (switch-OfControl env a.infohash (magnet (session.hex a.infohash)) (a.peer ∷ [])
                      p' (known a.infohash first) h')
            ]

    after_message-OfControl :
        (k : ℕ) (r : Run (Option ControlError × ControlPeer × ControlSession)) (p : Program S)
        → Ensures
            (λ (r : Option ControlError × ControlPeer × ControlSession). IsTrusting wire key P r.2)
            r
        → OfControl (IsTrusting wire key P) (after_message k r p)
    unfolding after_message
    after_message-OfControl k (ok (none, q, control)) p h = h
    after_message-OfControl k (ok (some e, q, control)) p h = h
    after_message-OfControl k panic p h = tt
    after_message-OfControl k out_of_fuel p h = tt

    control_turn-OfControl :
        (k : ℕ) (msg : Option (List ℕ)) (p : Program S)
        → IsTrusting wire key P p.control
        → OfControl (IsTrusting wire key P) (control_turn wire k msg p)
    unfolding control_turn
    control_turn-OfControl k msg p h = elim (Option-cases (get_elem? p.neighbours k)) [
      | inl e ↦ rw (control_turn, e) h
      | inr (q, e) ↦
          rw (control_turn, e)
            (after_message-OfControl k (control_message wire msg q p.control) p
              (control_message-IsTrusting wire key P msg q p.control h))
    ]

    main_turn-OfControl :
        (sql : Sql) (event : MainEvent C E) (p : Program S)
        → ((ih : Text) → IsSigned wire key ih → P ih)
        → IsKnown P event
        → IsTrusting wire key P p.control
        → OfControl (IsTrusting wire key P) (main_turn session wire sql event p)
    unfolding main_turn
    main_turn-OfControl sql MainEvent.interrupted p known ping h = rw (quit_current-control p) h
    main_turn-OfControl sql (MainEvent.connected c) p known ping h =
        rw (on_connection-control c p) h
    main_turn-OfControl sql (MainEvent.discovered digits peer) p known ping h =
        rw (on_discovery-control digits peer p) h
    main_turn-OfControl sql (MainEvent.pinged env ih) p known ping h =
        elim (Bool-cases (is_current session ih p)) [
          | inl e ↦ rw (main_turn, e) h
          | inr e ↦
              rw (main_turn, e)
                (switch-OfControl env ih _ (map (λ (q : ControlPeer). q.address) p.neighbours) p
                  ping h)
        ]
    main_turn-OfControl sql (MainEvent.announced env) p known ping h =
        on_announce-OfControl env p known h
    main_turn-OfControl sql (MainEvent.new_peer env peer) p known ping h =
        rw (on_new_peer-control env peer p) h
    main_turn-OfControl sql (MainEvent.meta_info bytes ih time) p known ping h =
        rw (on_meta_info-control sql bytes ih time p) h
    main_turn-OfControl sql (MainEvent.heard k msg) p known ping h =
        control_turn-OfControl k msg p h

    next_turn-OfControl :
        (T : ControlSession → Type 0) (o : Outcome S) (rest : Program S → Outcome S)
        → OfControl T o
        → ((p : Program S) → T p.control → OfControl T (rest p))
        → OfControl T (next_turn o rest)
    unfolding next_turn
    next_turn-OfControl T (Outcome.going p) rest h k = k p h
    next_turn-OfControl T (Outcome.done p) rest h k = h
    next_turn-OfControl T Outcome.exited rest h k = tt

    -- Where a set of infohashes has those that the watcher tells of and all that stand in a message
    -- which the share's key has signed, and it has the one that the program begins with: whatever the
    -- peers send, the infohash that the program announces stays in that set, and every announcement
    -- that waits for the main loop is of a signed infohash.
    pub main_loop-IsTrusting :
        (sql : Sql) (events : List (MainEvent C E)) (p : Program S)
        → ((ih : Text) → IsSigned wire key ih → P ih)
        → All (IsKnown P) events
        → IsTrusting wire key P p.control
        → OfControl (IsTrusting wire key P) (main_loop session wire sql events p)
    unfolding main_loop
    main_loop-IsTrusting sql [] p known pings h = h
    main_loop-IsTrusting sql (event ∷ events) p known (ping, pings) h =
        next_turn-OfControl (IsTrusting wire key P) (main_turn session wire sql event p) _
          (main_turn-OfControl sql event p known ping h)
          λ p' h'. main_loop-IsTrusting sql events p' known pings h'
