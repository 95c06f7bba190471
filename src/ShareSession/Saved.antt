-- ===== src/ShareSession/Saved.antt =====
-- A share that is opened again has the identity and the folder that were saved, and the last torrent.
use rakoshare.Base.{◌≡◌, List, [], ◌∷◌, none, some}
use rakoshare.Control.{Text}
use rakoshare.Id.{Crypto, Identity}
use rakoshare.ShareSession.{
  Row, Tables, Sql, open_tables, strings_of, save_torrent, save_ih_message, save_session,
}

-- What a session may save while it runs, and that the database is opened again.
pub data Update : Type 0 where
  torrent : Text → Text → Text → Update
  message : Text → Update
  opening : Update

unfoldable pub perform : Sql → List Update → Tables → Tables
unfolding save_torrent save_ih_message open_tables
perform sql [] t = t
perform sql (Update.torrent bytes infohash time ∷ updates) t =
    perform sql updates (save_torrent sql bytes infohash time t)
perform sql (Update.message bytes ∷ updates) t = perform sql updates (save_ih_message bytes t)
perform sql (Update.opening ∷ updates) t = perform sql updates (open_tables (some t))

-- The first row has the folder and the strings.
abbrev Holds : Text → Text × Text × Text → Tables → Type 0
Holds folder strings t =
    (r : Row) × (rows : List Row) × (t.meta ≡ r ∷ rows)
    × (r.folder ≡ some folder)
    × (strings_of r ≡ some strings)

-- A share that has been created, updated and opened any number of times, and is opened once more.
abbrev pub reopened : Sql → Crypto → Text → Identity → List Update → Tables
reopened sql c target id updates =
    open_tables (some (perform sql updates (save_session sql c target id (open_tables none))))
