-- ===== src/Main/Tests.antt =====
-- Runs of the main loop, and the theorems at concrete inputs. A number is printed as one byte, a key
-- signs by its first byte, and a session tells of its infohash and of the peers that it was told of.
use rakoshare.Base.{
  ℕ, ◌≡◌, ◌==◌, ◌⊎◌, inl, inr, refl, List, [], ◌∷◌, ◌++◌, drop, get_or, if◌then◌else◌, Option, none,
  some, ℤ, pos, negsuc,
}
use rakoshare.Files.{name_eq}
use rakoshare.Peers.{int_ltb}
use rakoshare.Store.{has_prefix}
use rakoshare.Control.{Text, Wire, IhMessage, ControlPeer, dash}
use rakoshare.Links.{magnet_scheme}
use rakoshare.ShareSession.{Sql, get_from_meta}
use rakoshare.Main.{
  TorrentSessionI, SessionCall, do_torrent, quit, Program, MainEvent, interrupted, pinged,
  announced, new_peer, heard, Outcome, main_loop,
}
use rakoshare.Main.Sequence.{IsHandled}
use rakoshare.Main.Switching.{main_loop-IsHandled}
use rakoshare.Main.Signed.{IsSigned, IsTrusting}
use rakoshare.Main.Trust.{OfControl, main_loop-IsTrusting}

abbrev number : Text → Option ℤ
number (n ∷ []) = some (pos n)
number digits = none

abbrev digit : ℤ → Text
digit (pos n) = n ∷ []
digit (negsuc n) = []

abbrev message_of : List ℕ → Option IhMessage
message_of (ih ∷ counter ∷ port ∷ sig) = some (record {
  info = record { info_hash = ih ∷ []; rev = counter ∷ dash ∷ [] };
  port = pos port;
  sig = sig;
})
message_of bytes = none

abbrev small_wire : Wire
small_wire = record {
  atoi = number;
  itoa = digit;
  hex_sum = λ s. s;
  encode_info = λ info. some (info.info_hash ++ info.rev);
  encode_message = λ message. some message.info.info_hash;
  decode_message = message_of;
  decode_handshake = λ bytes. some [];
  sign = λ priv bytes. priv;
  verify = λ key bytes sig. get_or key 0 0 == get_or sig 0 0;
}

abbrev small_sql : Sql
small_sql = record { column = λ v. v; format = λ n. n ∷ []; parse = λ v. none }

-- A session that is no link has its torrent for its infohash.
abbrev small_start : Unit {0} → Text → Option (Text × List Text)
small_start env torrent =
    if has_prefix torrent magnet_scheme then some (drop 20 torrent, []) else some (torrent, [])

abbrev small_session : TorrentSessionI (Text × List Text) Text (Unit {0})
small_session = record {
  new_torrent_session = small_start;
  info_hash = λ s. s.0;
  accept_new_peer = λ c s. s;
  hint_new_peer = λ peer s. (s.0, s.1 ++ (peer ∷ []));
  conn_hash = λ c. c;
  accept_share_peer = λ c peers. peers;
  hex = λ ih. ih;
  from_hex = λ digits. some digits;
}

abbrev neighbour : ControlPeer
neighbour = record { address = 8 ∷ []; ip = 8 ∷ []; their_extensions = []; sent = [] }

-- The watcher has saved a torrent, and nothing runs yet.
abbrev beginning : Program (Text × List Text)
beginning = record {
  control = record {
    priv = 7 ∷ [];
    pub_key = 7 ∷ [];
    port = pos 80;
    current_ih = 1 ∷ [];
    rev = 0 ∷ dash ∷ [];
    saved = [];
    torrents = [];
  };
  neighbours = neighbour ∷ [];
  share_hash = 5 ∷ [];
  fed = [];
  tables = record {
    meta =
        record {
          torrent = some (2 ∷ []);
          infohash = none;
          last_mod_time = none;
          ih_message = none;
          folder = none;
          write_read = none;
          read = none;
          store = none;
        }
        ∷ [];
    peers = [];
  };
  current = none;
  calls = [];
}

-- The watcher's torrent runs; then the neighbour announces infohash 3, once with another key and once
-- with that of the share.
abbrev events : List (MainEvent Text (Unit {0}))
events = pinged tt (2 ∷ []) ∷ heard 0 (some (20 ∷ 2 ∷ 4 ∷ 9 ∷ 80 ∷ 6 ∷ [])) ∷ announced tt ∷ []

abbrev more_events : List (MainEvent Text (Unit {0}))
more_events =
    pinged tt (2 ∷ [])
    ∷ heard 0 (some (20 ∷ 2 ∷ 3 ∷ 9 ∷ 80 ∷ 7 ∷ []))
    ∷ announced tt
    ∷ new_peer tt (9 ∷ [])
    ∷ []

abbrev session_of : Outcome (Text × List Text) → Option (Text × List Text)
session_of (Outcome.going p) = p.current
session_of (Outcome.done p) = none
session_of Outcome.exited = none

abbrev calls_of : Outcome (Text × List Text) → List SessionCall
calls_of (Outcome.going p) = p.calls
calls_of (Outcome.done p) = p.calls
calls_of Outcome.exited = []

-- The forged announcement closes the neighbour, and the session stays.
forged :
    session_of (main_loop small_session small_wire small_sql events beginning)
    ≡ some (2 ∷ [], (8 ∷ []) ∷ [])
unfolding main_loop name_eq int_ltb
forged = refl

-- The signed one replaces the session.
replaced :
    session_of (main_loop small_session small_wire small_sql more_events beginning)
    ≡ some (3 ∷ [], (8 ∷ b':' ∷ 80 ∷ []) ∷ (9 ∷ []) ∷ [])
unfolding main_loop name_eq int_ltb
replaced = refl

stopped :
    calls_of
      (main_loop small_session small_wire small_sql (more_events ++ (interrupted ∷ [])) beginning)
    ≡ do_torrent ∷ quit ∷ do_torrent ∷ quit ∷ []
unfolding main_loop name_eq int_ltb
stopped = refl

-- The torrent that the watcher has saved has the same bytes as its infohash.
abbrev Same : Text → Text → Type 0
Same ih torrent = torrent ≡ ih

main_loop-IsHandled_example :
    IsHandled small_session Same
      (main_loop small_session small_wire small_sql more_events beginning)
unfolding main_loop name_eq int_ltb get_from_meta
main_loop-IsHandled_example =
    main_loop-IsHandled small_session Same small_wire small_sql more_events beginning
      (record { alone = refl; source = tt }) (refl, (tt, (tt, (tt, tt))))

abbrev Allowed : Text → Type 0
Allowed ih = (ih ≡ 1 ∷ []) ⊎ ((ih ≡ 2 ∷ []) ⊎ IsSigned small_wire (7 ∷ []) ih)

main_loop-IsTrusting_example :
    OfControl small_session
      (IsTrusting small_wire (7 ∷ []) Allowed)
      (main_loop small_session small_wire small_sql events beginning)
main_loop-IsTrusting_example =
    main_loop-IsTrusting small_session small_wire (7 ∷ []) Allowed small_sql events beginning
      (λ ih h. inr (inr h)) (inr (inl refl), (tt, (tt, tt)))
      (record { same_key = refl; signed = tt; trusted = inl refl })
