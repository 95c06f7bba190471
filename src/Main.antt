-- ===== src/Main.antt =====
-- main.go: the main loop of `Share`, which starts and ends the session of a torrent by what the
-- watcher, the control session and its peers say, beside the case of the loop of the control session
-- (control.go) that takes a message. A session of a torrent is reached by the interface
-- TorrentSessionI alone. The message that SetCurrent saves is in the control session.
pub mod Infohash
pub mod Sequence
pub mod Switching
pub mod Signed
pub mod Trust
mod Tests
use rakoshare.Base.{
  ℕ, zero, suc, set, get_elem?, Run, ok, panic, out_of_fuel, List, [], ◌∷◌, ◌++◌, map,
  if◌then◌else◌, Bool, true, false, not, ◌&&◌, Option, none, some,
}
use rakoshare.Files.{name_eq}
use rakoshare.Control.{Text, Wire, ControlPeer, ControlSession, ControlError, Announce, set_current}
use rakoshare.Control.Incoming.{control_message}
use rakoshare.Links.{magnet_scheme, btih}
use rakoshare.ShareSession.{Sql, Tables, get_from_meta, save_torrent}

-- TorrentSessionI without EmptyTorrent, with what starts a session: `NewTorrentSession` reads the
-- disk, here `E`, and is `none` for an error. `C` is a connection that was accepted. `hex` and
-- `from_hex` are the library's.
pub record TorrentSessionI (S C E : Type 0) : Type 0 where
  pub new_torrent_session : E → Text → Option S
  pub info_hash : S → Text
  pub accept_new_peer : C → S → S
  pub hint_new_peer : Text → S → S
  pub conn_hash : C → Text
  pub accept_share_peer : C → List ControlPeer → List ControlPeer
  pub hex : Text → Text
  pub from_hex : Text → Option Text

-- What the loop has called on sessions of torrents.
pub data SessionCall : Type 0 where
  do_torrent quit : SessionCall

-- `current` is `none` for EmptyTorrent, `neighbours` are the peers of the control session, `fed` the
-- addresses that it was told of, and `calls` what was called, in order.
pub record Program (S : Type 0) : Type 0 where
  pub control : ControlSession
  pub neighbours : List ControlPeer
  pub share_hash : Text
  pub fed : List Text
  pub tables : Tables
  pub current : Option S
  pub calls : List SessionCall

-- What `select` receives, where `announced` takes what the control session has sent. `meta_info`
-- carries the metainfo as bencode prints it, `none` for an error. `heard` is a turn of the control
-- session: a message of the peer with this index.
pub data MainEvent (C E : Type 0) : Type 0 where
  interrupted : MainEvent C E
  connected : C → MainEvent C E
  discovered : Text → Text → MainEvent C E
  pinged : E → Text → MainEvent C E
  announced : E → MainEvent C E
  new_peer : E → Text → MainEvent C E
  meta_info : Option (List ℕ) → Text → Text → MainEvent C E
  heard : ℕ → Option (List ℕ) → MainEvent C E

-- `exited` is `log.Fatal` or a panic.
pub data Outcome (S : Type 0) : Type 0 where
  going : Program S → Outcome S
  done : Program S → Outcome S
  exited : Outcome S

abbrev pub is_running : {S : Type 0} → Option S → Bool
is_running none = false
is_running (some s) = true

-- "magnet:?xt=urn:btih:" and the hexadecimal digits.
abbrev pub magnet : Text → Text
magnet digits = magnet_scheme ++ (b'?' ∷ b'x' ∷ b't' ∷ b'=' ∷ (btih ++ digits))

-- `currentSession.Quit()`; that of EmptyTorrent does nothing.
unfoldable pub quit_current : {S : Type 0} → Program S → Program S
quit_current p = elim p.current [ none ↦ p | some s ↦ record p { calls = p.calls ++ (quit ∷ []) } ]

unfoldable pub remove_at : ℕ → List ControlPeer → List ControlPeer
remove_at k [] = []
remove_at zero (q ∷ peers) = peers
remove_at (suc k) (q ∷ peers) = q ∷ remove_at k peers

-- What the loop of the control session does with the outcome of a message of the peer with this index;
-- `ClosePeer` hints at the peer that it has closed.
unfoldable pub after_message :
    {S : Type 0}
    → ℕ
    → Run (Option ControlError × ControlPeer × ControlSession)
    → Program S
    → Outcome S
unfolding remove_at
after_message k (ok (none, q, control)) p =
    going (record p { control = control; neighbours = set p.neighbours k q })
after_message k (ok (some e, q, control)) p = going (record p {
  control = control;
  neighbours = remove_at k p.neighbours;
  fed = p.fed ++ (q.address ∷ []);
})
after_message k panic p = exited
after_message k out_of_fuel p = exited

-- A message of a peer that has been closed since is left out.
unfoldable pub control_turn : {S : Type 0} → Wire → ℕ → Option (List ℕ) → Program S → Outcome S
unfolding control_message after_message
control_turn wire k msg p = elim (get_elem? p.neighbours k) [
  | none ↦ going p
  | some q ↦ after_message k (control_message wire msg q p.control) p
]

-- The loop goes on where nothing has ended it.
unfoldable pub next_turn : {S : Type 0} → Outcome S → (Program S → Outcome S) → Outcome S
next_turn (going p) rest = rest p
next_turn (done p) rest = done p
next_turn exited rest = exited

module _ {S C E : Type 0} (session : TorrentSessionI S C E) where
  unfoldable pub hint_all : List Text → S → S
  hint_all [] s = s
  hint_all (peer ∷ peers) s = hint_all peers (session.hint_new_peer peer s)

  -- A new session, which runs and is told of peers, or EmptyTorrent where it does not start.
  unfoldable pub open_session : E → Text → List Text → Program S → Program S
  unfolding hint_all
  open_session env torrent peers p = elim (session.new_torrent_session env torrent) [
    | none ↦ record p { current = none }
    | some s ↦ record p { current = some (hint_all peers s); calls = p.calls ++ (do_torrent ∷ []) }
  ]

  -- Whether an infohash is what the control session announces, with a session that runs.
  unfoldable pub is_current : Text → Program S → Bool
  is_current ih p = name_eq p.control.current_ih ih && is_running p.current

  -- `SetCurrent`, then the old session ends and one of `torrent` begins.
  unfoldable pub switch : Wire → E → Text → Text → List Text → Program S → Outcome S
  unfolding set_current quit_current open_session
  switch wire env ih torrent peers p =
      let (error, control, neighbours) = set_current wire ih p.control p.neighbours in
      elim error [
        | some e ↦ exited
        | none ↦ going (
            open_session env torrent peers
              (quit_current (record p { control = control; neighbours = neighbours })))
      ]

  -- An announcement that the control session has taken.
  unfoldable pub on_announce : Wire → E → Program S → Outcome S
  unfolding is_current switch
  on_announce wire env p = elim p.control.torrents [
    | [] ↦ going p
    | a ∷ torrents ↦
        let p' = record p { control = record p.control { torrents = torrents } } in
        if is_current a.infohash p'
        then going p'
        else switch wire env a.infohash (magnet (session.hex a.infohash)) (a.peer ∷ []) p'
  ]

  unfoldable pub on_connection : C → Program S → Program S
  on_connection c p =
      let other =
        if name_eq p.share_hash (session.conn_hash c)
        then record p { neighbours = session.accept_share_peer c p.neighbours }
        else p in
      elim p.current [
        | none ↦ other
        | some s ↦
            if name_eq (session.info_hash s) (session.conn_hash c)
            then record p { current = some (session.accept_new_peer c s) }
            else other
      ]

  -- A peer of the share on the local network.
  unfoldable pub on_discovery : Text → Text → Program S → Program S
  on_discovery digits peer p = elim (session.from_hex digits) [
    | none ↦ p
    | some ih ↦ if name_eq p.share_hash ih then record p { fed = p.fed ++ (peer ∷ []) } else p
  ]

  -- A peer of the share: where no session runs, one of the announced infohash is tried.
  unfoldable pub on_new_peer : E → Text → Program S → Program S
  unfolding open_session
  on_new_peer env peer p = elim p.current [
    | none ↦ open_session env (magnet (session.hex p.control.current_ih)) (peer ∷ []) p
    | some s ↦ record p { current = some (session.hint_new_peer peer s) }
  ]

  -- EmptyTorrent has no channel of metainfos.
  unfoldable pub on_meta_info : Sql → Option (List ℕ) → Text → Text → Program S → Program S
  unfolding save_torrent
  on_meta_info sql bytes ih time p = elim bytes [
    | none ↦ p
    | some meta ↦
        if is_running p.current
        then record p { tables = save_torrent sql meta ih time p.tables }
        else p
  ]

  -- A round of the loop.
  unfoldable pub main_turn : Wire → Sql → MainEvent C E → Program S → Outcome S
  unfolding quit_current is_current switch on_connection on_discovery on_announce on_new_peer
      on_meta_info get_from_meta control_turn
  main_turn wire sql interrupted p = done (quit_current p)
  main_turn wire sql (connected c) p = going (on_connection c p)
  main_turn wire sql (discovered digits peer) p = going (on_discovery digits peer p)
  main_turn wire sql (pinged env ih) p =
      let addresses = map (λ (q : ControlPeer). q.address) p.neighbours in
      let torrent = get_from_meta (λ r. r.torrent) p.tables in
      if is_current ih p then going p else switch wire env ih torrent addresses p
  main_turn wire sql (announced env) p = on_announce wire env p
  main_turn wire sql (new_peer env peer) p = going (on_new_peer env peer p)
  main_turn wire sql (meta_info bytes ih time) p = going (on_meta_info sql bytes ih time p)
  main_turn wire sql (heard k msg) p = control_turn wire k msg p

  unfoldable pub main_loop : Wire → Sql → List (MainEvent C E) → Program S → Outcome S
  unfolding main_turn next_turn
  main_loop wire sql [] p = going p
  main_loop wire sql (event ∷ events) p =
      next_turn (main_turn wire sql event p) (main_loop wire sql events)
