-- ===== src/Watch.antt =====
-- dirwatch.go: the hashing of a directory into pieces (`BlockHasher`, `createMeta`), which files of
-- it count (`torrentWalk`), and when the watcher makes a new torrent (`watch`). SHA-1, bencode and the
-- walk of the file system are parameters: a walk is the list of what it visits.
pub mod Hashing
pub mod Created
pub mod Turns
mod Tests
use rakoshare.Base.{
  ℕ, zero, suc, ◌+◌, ◌-◌, ◌*◌, ◌^◌, List, [], ◌∷◌, ◌++◌, length, take, drop, ltb, leb, ◌==◌,
  if◌then◌else◌, Bool, true, false, not, ◌&&◌, ◌||◌, Option, none, some, Run, ok, panic,
  out_of_fuel, ◌>>=◌,
}
use rakoshare.Files.{name_eq}
use rakoshare.Store.{has_prefix, ext_from, part_suffix}

-- `buffered` is what the hash has taken since it was made.
pub record BlockHasher : Type 0 where
  pub buffered : List ℕ
  pub left : ℕ
  pub block_size : ℕ
  pub pieces : List ℕ

abbrev pub new_block_hasher : ℕ → BlockHasher
new_block_hasher block_size = record {
  buffered = [];
  left = block_size;
  block_size = block_size;
  pieces = [];
}

-- One file of a walk: its path, and its base name, its parts below the root, and its content.
pub record Visit : Type 0 where
  pub path : List ℕ
  pub base : List ℕ
  pub parts : List (List ℕ)
  pub is_regular : Bool
  pub size : ℕ
  pub mod_time : ℕ
  pub content : Option (List ℕ)
  pub failed : Bool

-- The tests of `torrentWalk`, in their order.
unfoldable pub is_counted : Visit → Bool
unfolding ext_from
is_counted v =
    if not v.is_regular
    then false
    else if v.size == 0
    then false
    else if has_prefix v.base (46 ∷ [])
    then false
    else not (name_eq (ext_from [] v.path) part_suffix)

-- `torrentWalk`: the function is called for the files that count, until it returns an error.
unfoldable pub torrent_walk {ℓ κ} :
    {E : Type ℓ} {S : Type κ} → (Visit → S → Option E × S) → List Visit → S → Option E × S
unfolding is_counted
torrent_walk f [] s = (none, s)
torrent_walk f (v ∷ visits) s =
    let rest = torrent_walk f visits in
    if is_counted v
    then elim (f v s).0 [ some e ↦ (some e, (f v s).1) | none ↦ rest (f v s).1 ]
    else rest s

pub record FileDict : Type 0 where
  pub length : ℕ
  pub path : List (List ℕ)

pub record InfoDict : Type 0 where
  pub pieces : List ℕ
  pub piece_length : ℕ
  pub name : List ℕ
  pub files : List FileDict

pub record MetaInfo : Type 0 where
  pub info : InfoDict
  pub info_hash : List ℕ

pub data MetaError : Type 0 where
  walk_failed open_failed encode_failed : MetaError

-- What the walk of `createMeta` builds.
abbrev pub Building : Type 0
Building = Run BlockHasher × List FileDict

-- `io.CopyN(h.sha1er, rd, h.left)` where some is left: the hasher and whether the reader ended.
unfoldable pub copy_n : List ℕ → BlockHasher → BlockHasher × List ℕ × Bool
copy_n bytes h = (
  record h { buffered = h.buffered ++ take h.left bytes; left = h.left - length bytes },
  drop h.left bytes,
  ltb (length bytes) h.left,
)

module _ (sha1 : List ℕ → List ℕ) where
  unfoldable pub flush : BlockHasher → BlockHasher
  flush h =
      if h.left == 0
      then record h { pieces = h.pieces ++ sha1 h.buffered; buffered = []; left = h.block_size }
      else h

  -- `ReadFrom`, and `Write`, over a reader that returns these bytes and ends.
  unfoldable pub read_from : ℕ → List ℕ → BlockHasher → Run BlockHasher
  unfolding copy_n flush
  read_from zero bytes h = out_of_fuel
  read_from (suc fuel) bytes h =
      let rest = read_from fuel in
      if ltb 0 h.left
      then (let (h', bytes', stop) = copy_n bytes h in
          if stop then ok (flush h') else rest bytes' (flush h'))
      else rest bytes (flush h)

  unfoldable pub close_hasher : BlockHasher → BlockHasher
  close_hasher h =
      if h.left == h.block_size then h else record h { pieces = h.pieces ++ sha1 h.buffered }

  -- What `createMeta` does with one file; its hasher gets the fuel that its bytes need.
  unfoldable pub add_file : Visit → Building → Option MetaError × Building
  unfolding read_from
  add_file v (hasher, files) =
      if v.failed then (some walk_failed, (hasher, files)) else elim v.content [
        | none ↦ (some open_failed, (hasher, files))
        | some bytes ↦ (
          none,
          (
            (hasher >>= λ h. read_from (length bytes + 1) bytes h),
            files ++ (record { length = v.size; path = v.parts } ∷ []),
          ),
        )
      ]

  -- The part of `createMeta` after the walk, where `encode` is bencode on the info dictionary, with
  -- `none` for an error.
  unfoldable pub finish_meta :
      (InfoDict → Option (List ℕ))
      → Option MetaError × Building
      → Run (Option MetaError × Option MetaInfo)
  unfolding close_hasher
  finish_meta encode (some e, (hasher, files)) = ok (some e, none)
  finish_meta encode (none, (hasher, files)) = hasher >>= λ h.
      let info : InfoDict = record {
        pieces = (close_hasher h).pieces;
        piece_length = 2 ^ 20;
        name = b'r' ∷ b'a' ∷ b'k' ∷ b'o' ∷ b's' ∷ b'h' ∷ b'a' ∷ b'r' ∷ b'e' ∷ [];
        files = files;
      } in
      elim (encode info) [
        | none ↦ ok (some encode_failed, none)
        | some bytes ↦ ok (none, some (record { info = info; info_hash = sha1 bytes }))
      ]

  unfoldable pub create_meta :
      (InfoDict → Option (List ℕ)) → List Visit → Run (Option MetaError × Option MetaInfo)
  unfolding torrent_walk add_file finish_meta
  create_meta encode visits =
      finish_meta encode (torrent_walk add_file visits (ok (new_block_hasher (2 ^ 20)), []))

-- What a scan says, and the variables of the loop of `watch`. `announced` is what the watcher has
-- sent on `PingNewTorrent`, in order.
pub data ScanState : Type 0 where
  idem changed : ScanState

pub data ScanError : Type 0 where
  new_file scan_failed : ScanError

pub record Watcher : Type 0 where
  pub previous : ScanState
  pub current : ScanState
  pub compare_time : ℕ
  pub announced : List (List ℕ)

abbrev pub initial_watcher : ℕ → Watcher
initial_watcher last_mod_time = record {
  previous = idem;
  current = idem;
  compare_time = last_mod_time;
  announced = [];
}

-- The function that `watch` calls for the files that count.
abbrev pub compare : ℕ → Visit → Unit {0} → Option ScanError × Unit {0}
compare compare_time v s =
    if v.failed
    then (some scan_failed, s)
    else if ltb compare_time v.mod_time
    then (some new_file, s)
    else (none, s)

unfoldable pub scan_dir : ℕ → List Visit → Option ScanError
unfolding torrent_walk
scan_dir compare_time visits = (torrent_walk (compare compare_time) visits tt).0

unfoldable pub state_after : Option ScanError → ScanState → ScanState
state_after none current = idem
state_after (some new_file) current = changed
state_after (some scan_failed) current = current

-- The end of a turn: `made` is the infohash that `torrentify` returns, `none` for an error, after
-- which the turn ends early.
unfoldable pub end_turn : Option (List ℕ) → ScanState → ScanState → Watcher → Watcher
end_turn none idem changed w = w
end_turn (some infohash) idem changed w = record w {
  previous = idem;
  announced = w.announced ++ (infohash ∷ []);
}
end_turn made current previous w = record w { previous = current }

-- One turn of the loop of `watch`: what the walk visits, the time after it, and what `torrentify`
-- returns if it is called.
unfoldable pub watch_turn : List Visit → ℕ → Option (List ℕ) → Watcher → Watcher
unfolding scan_dir state_after end_turn
watch_turn visits now made w =
    let current = state_after (scan_dir w.compare_time visits) w.current in
    end_turn made current w.previous (record w { current = current; compare_time = now })
