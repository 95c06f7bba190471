-- ===== src/ShareSession/Tests.antt =====
-- Runs of a share's database, and the theorems at concrete inputs.
use rakoshare.Base.{◌≡◌, refl, List, [], ◌∷◌, none, some, ok}
use rakoshare.Files.{name_eq}
use rakoshare.Control.{Text}
use rakoshare.Id.{empty_id}
use rakoshare.Id.Sample.{crypto}
use rakoshare.ShareSession.{
  Tables, PeerRow, Sql, open_tables, get_share_id, get_last_mod_time, get_peers, save_peer,
  watch_rows, fire,
}
use rakoshare.ShareSession.Saved.{Update}

-- No text looks like a number, and a time is written as one byte.
abbrev sql : Sql
sql = record {
  column = λ v. v;
  format = λ time. time ∷ [];
  parse = λ v. elim v [ [] ↦ none | x ∷ rest ↦ some x ];
}

abbrev a_peer : Text
a_peer = b'a' ∷ []

abbrev b_row : PeerRow
b_row = record { host_port = b'b' ∷ []; valid_until = 9 ∷ [] }

abbrev no_tables : Tables
no_tables = record { meta = []; peers = [] }

nothing_saved : get_share_id crypto no_tables ≡ ok empty_id
unfolding get_share_id
nothing_saved = refl

no_time : get_last_mod_time sql no_tables ≡ 0
unfolding get_last_mod_time
no_time = refl

saved_twice :
    get_peers
      (save_peer sql 7 a_peer (save_peer sql 5 a_peer (record no_tables { peers = b_row ∷ [] })))
    ≡ (b'b' ∷ []) ∷ a_peer ∷ []
unfolding save_peer get_peers
saved_twice = refl

fired_twice : fire sql b_row (3 ∷ 4 ∷ []) (record no_tables { peers = b_row ∷ [] }) ≡ no_tables
unfolding fire name_eq
fired_twice = refl

-- The owner's share, after a torrent and a message.
abbrev two_updates : List Update
two_updates =
    Update.torrent (1 ∷ []) (2 ∷ []) (3 ∷ []) ∷ Update.opening ∷ Update.message (4 ∷ []) ∷ []

watched :
    watch_rows sql
      (b_row ∷ record b_row { valid_until = [] } ∷ [])
      (record no_tables { peers = b_row ∷ record b_row { valid_until = [] } ∷ [] })
    ≡ (record no_tables { peers = b_row ∷ [] }, 9 ∷ [])
unfolding watch_rows name_eq
watched = refl

opened_once : open_tables none ≡ no_tables
unfolding open_tables
opened_once = refl
