-- ===== src/ShareSession.antt =====
-- pkg/sharesession/sharesession.go: what a share keeps in its database. A statement of SQL is what it
-- does to the rows of the two tables; rows are read in the order in which they were inserted, and no
-- statement fails. A column of type `string` has numeric affinity: `column` is what it keeps of a
-- text. A time is in seconds.
pub mod Saved
pub mod Expiry
mod Tests
use rakoshare.Base.{
  ℕ, zero, suc, ◌+◌, ◌*◌, List, [], ◌∷◌, ◌++◌, map, if◌then◌else◌, Bool, true, false, not, ◌&&◌,
  Option, none, some, Run, ok, panic, ◌>>=◌,
}
use rakoshare.Files.{name_eq}
use rakoshare.Control.{Text}
use rakoshare.Id.{Crypto, Identity, empty_id, wrs, rs, s, new_from_string}

-- A row of `meta`, with `none` for NULL.
pub record Row : Type 0 where
  pub torrent : Option Text
  pub infohash : Option Text
  pub last_mod_time : Option Text
  pub ih_message : Option Text
  pub folder : Option Text
  pub write_read : Option Text
  pub read : Option Text
  pub store : Option Text

pub record PeerRow : Type 0 where
  pub host_port : Text
  pub valid_until : Text

pub record Tables : Type 0 where
  pub meta : List Row
  pub peers : List PeerRow

pub record Sql : Type 0 where
  pub column : Text → Text
  pub format : ℕ → Text
  pub parse : Text → Option ℕ

-- `New` creates the tables where they are missing.
unfoldable pub open_tables : Option Tables → Tables
open_tables none = record { meta = []; peers = [] }
open_tables (some t) = t

abbrev pub text_of : Option Text → Text
text_of none = []
text_of (some v) = v

-- `getFromMeta`: of the first row, and nothing where there is none or it has NULL.
unfoldable pub get_from_meta : (Row → Option Text) → Tables → Text
get_from_meta field t = elim t.meta [ [] ↦ [] | r ∷ rows ↦ text_of (field r) ]

unfoldable pub get_last_mod_time : Sql → Tables → ℕ
unfolding get_from_meta
get_last_mod_time sql t = elim (sql.parse (get_from_meta (λ r. r.last_mod_time) t)) [
  | none ↦ 0
  | some time ↦ time
]

abbrev pub is_text : Text → Bool
is_text v = not (name_eq v [])

-- The strings of a row, where none is NULL.
abbrev pub strings_of : Row → Option (Text × Text × Text)
strings_of r = elim r.write_read [
  | none ↦ none
  | some w ↦ elim r.read [
    | none ↦ none
    | some v ↦ elim r.store [ none ↦ none | some x ↦ some (w, v, x) ]
  ]
]

-- The switch of `GetShareId`, which drops the errors of `NewFromString`.
unfoldable pub id_of : Crypto → Text × Text × Text → Run Identity
unfolding name_eq new_from_string
id_of c (w, v, x) =
    if is_text w
    then (new_from_string c w >>= λ r. ok r.0)
    else if is_text v
    then (new_from_string c v >>= λ r. ok r.0)
    else if is_text x
    then (new_from_string c x >>= λ r. ok r.0)
    else ok empty_id

unfoldable pub get_share_id : Crypto → Tables → Run Identity
unfolding id_of
get_share_id c t = elim t.meta [
  | [] ↦ ok empty_id
  | r ∷ rows ↦ elim (strings_of r) [ none ↦ ok empty_id | some strings ↦ id_of c strings ]
]

-- `UPDATE` changes every row.
unfoldable pub save_torrent : Sql → Text → Text → Text → Tables → Tables
save_torrent sql torrent infohash time t = record t {
  meta =
      map
        (λ (r : Row). record r {
          torrent = some torrent;
          infohash = some (sql.column infohash);
          last_mod_time = some (sql.column time);
        })
        t.meta;
}

unfoldable pub save_ih_message : Text → Tables → Tables
save_ih_message message t = record t {
  meta = map (λ (r : Row). record r { ih_message = some message }) t.meta;
}

unfoldable pub save_session : Sql → Crypto → Text → Identity → Tables → Tables
unfolding wrs rs s
save_session sql c target id t = record t {
  meta =
      t.meta
      ++ (record {
        torrent = none;
        infohash = none;
        last_mod_time = none;
        ih_message = none;
        folder = some (sql.column target);
        write_read = some (sql.column (wrs c id));
        read = some (sql.column (rs c id));
        store = some (sql.column (s c id));
      }
          ∷ []);
}

-- The rows of `peers` without those of an address, or of an address and a time.
unfoldable pub rows_without : (PeerRow → Bool) → List PeerRow → List PeerRow
rows_without goes [] = []
rows_without goes (r ∷ rows) =
    let rest = rows_without goes rows in if goes r then rest else r ∷ rest

-- `INSERT OR REPLACE`: an address is a key.
unfoldable pub save_peer : Sql → ℕ → Text → Tables → Tables
unfolding rows_without name_eq
save_peer sql now peer t = record t {
  peers =
      rows_without (λ r. name_eq r.host_port (sql.column peer)) t.peers
      ++ (record {
        host_port = sql.column peer;
        valid_until = sql.column (sql.format (now + 24 * 3600));
      }
          ∷ []);
}

-- `deletePeerOrLog`
unfoldable pub delete_peer : Sql → Text → Text → Tables → Tables
unfolding rows_without name_eq
delete_peer sql peer until t = record t {
  peers =
      rows_without
        (λ r. name_eq r.host_port (sql.column peer) && name_eq r.valid_until (sql.column until))
        t.peers;
}

-- The timer that `SavePeer` sets, where `keep` is what `shouldKeep` says then.
unfoldable pub on_timer : Sql → Bool → ℕ → Text → Tables → Tables
unfolding delete_peer
on_timer sql keep now peer t =
    if keep then t else delete_peer sql peer (sql.format (now + 24 * 3600)) t

unfoldable pub get_peers : Tables → List Text
get_peers t = map (λ (r : PeerRow). r.host_port) t.peers

-- The loop of `watchPeers` over the rows: the tables, and the times of the timers. A time that does
-- not parse is deleted at once.
unfoldable pub watch_rows : Sql → List PeerRow → Tables → Tables × List ℕ
unfolding delete_peer
watch_rows sql [] t = (t, [])
watch_rows sql (r ∷ rows) t = elim (sql.parse r.valid_until) [
  | none ↦ watch_rows sql rows (delete_peer sql r.host_port r.valid_until t)
  | some eol ↦ let (t', timers) = watch_rows sql rows t in (t', eol ∷ timers)
]

-- The timers share the variable of the loop, which is the last row when they fire (before Go 1.22).
unfoldable pub fire : Sql → PeerRow → List ℕ → Tables → Tables
unfolding delete_peer
fire sql last [] t = t
fire sql last (eol ∷ timers) t =
    fire sql last timers (delete_peer sql last.host_port last.valid_until t)
