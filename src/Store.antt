-- ===== src/Store.antt =====
-- files.go: creating a store, and the names of its entries. A file that is not complete has the
-- suffix `.part`. A name is a list of bytes. Of the operating system's errors only a missing file
-- is modelled; creating a file or a directory succeeds, and `path` cleans a name by a parameter.
pub mod Open
pub mod Marked
pub mod Bad
pub mod Finish
mod Tests
use rakoshare.Base.{
  ℕ, zero, suc, ◌+◌, ◌-◌, List, [], ◌∷◌, ◌++◌, length, take, drop, replicate, map, ltb, leb, ◌==◌,
  if◌then◌else◌, Bool, true, false, not, ◌&&◌, Option, none, some,
}
use rakoshare.Files.{FileName, Disk, FileEntry, Located, FileStore, name_eq, update, find}

-- `strings.HasPrefix(s, prefix)`
abbrev pub has_prefix : FileName → FileName → Bool
has_prefix s prefix = name_eq prefix (take (length prefix) s)

-- `strings.HasSuffix(s, suffix)`
abbrev pub has_suffix : FileName → FileName → Bool
has_suffix s suffix =
    leb (length suffix) (length s) && name_eq suffix (drop (length s - length suffix) s)

-- `strings.Replace(s, old, new, 1)`
unfoldable pub replace_first : FileName → FileName → FileName → FileName
replace_first [] old new = if length old == 0 then new else []
replace_first (c ∷ s) old new =
    let rest = replace_first s old new in
    if has_prefix (c ∷ s) old then new ++ drop (length old) (c ∷ s) else c ∷ rest

-- `path.Ext`: from the last dot of the last element. The first argument is what was found so far.
unfoldable pub ext_from : FileName → FileName → FileName
ext_from found [] = found
ext_from found (c ∷ s) = ext_from (if c == b'.' then c ∷ s else if c == b'/' then [] else found) s

abbrev pub part_suffix : FileName
part_suffix = b'.' ∷ b'p' ∷ b'a' ∷ b'r' ∷ b't' ∷ []

-- The text that stands for the rest of a long name.
abbrev pub ellipsis : FileName
ellipsis = b'[' ∷ b'.' ∷ b'.' ∷ b'.' ∷ b']' ∷ []

-- The name of the part file that `open` creates.
unfoldable pub part_name : FileName → FileName
unfolding replace_first ext_from
part_name name =
    let ext = ext_from [] name in
    let rawname = replace_first name ext [] in
    let capped = if ltb 60 (length rawname) then take 60 rawname ++ ellipsis else rawname in
    (capped ++ ext) ++ part_suffix

-- `os.Truncate` on a content.
abbrev pub resize : ℕ → List ℕ → List ℕ
resize n content = take n content ++ replicate (n - length content) 0

-- `os.Truncate`; a missing file is an error and changes nothing.
unfoldable pub truncate : Disk → FileName → ℕ → Disk
truncate d name n = elim (d name) [
  | none ↦ d
  | some content ↦ update d name (some (resize n content))
]

-- The test for existence and correct length.
unfoldable pub need_to_retrieve : Disk → FileName → ℕ → Bool
need_to_retrieve d name n = elim (d name) [ none ↦ true | some content ↦ not (length content == n) ]

-- `fileEntry.open`: the entry and the disk after the call, which returns no error here.
unfoldable pub entry_open : Disk → FileName → ℕ → Disk × FileEntry
unfolding need_to_retrieve part_name truncate
entry_open d name n =
    let d1 = update d (name ++ part_suffix) none in
    if need_to_retrieve d1 name n
    then (
      truncate (update d1 (part_name name) (some [])) (part_name name) n,
      record { length = n; name = part_name name },
    )
    else (d1, record { length = n; name = name })

-- The loop of `NewFileStore` over the paths and the lengths of the torrent's files: the disk, the
-- entries from the offset on, and the total size. `full_path` cleans and joins the path.
unfoldable pub open_files :
    {Source : Type 0} → (Source → FileName) → Disk → List (Source × ℕ) → ℕ → Disk × FileStore × ℕ
unfolding entry_open
open_files full_path d [] total = (d, [], total)
open_files full_path d ((src, n) ∷ files) total =
    let (d1, entry) = entry_open d (full_path src) n in
    let (d2, fs, total') = open_files full_path d1 files (total + n) in
    (d2, record { offset = total; entry = entry } ∷ fs, total')

-- `NewFileStore`. Without a list of files the torrent is the one file of its name and length.
unfoldable pub new_file_store :
    {Source : Type 0}
    → (Source → FileName)
    → Disk
    → Source × ℕ
    → List (Source × ℕ)
    → Disk × FileStore × ℕ
unfolding open_files
new_file_store full_path d single [] = open_files full_path d (single ∷ []) 0
new_file_store full_path d single (file ∷ files) = open_files full_path d (file ∷ files) 0

abbrev pub is_part : FileEntry → Bool
is_part e = has_suffix e.name part_suffix

-- `copyfile`; a missing source changes nothing.
unfoldable pub copyfile : Disk → FileName → FileName → Disk
copyfile d from to = elim (d from) [ none ↦ d | some content ↦ update d to (some content) ]

-- `fileEntry.SetPart`, whose errors are only logged.
unfoldable pub set_part : Disk → FileEntry → Disk × FileEntry
unfolding copyfile truncate
set_part d e =
    if is_part e
    then (d, e)
    else (let name = e.name ++ part_suffix in
        (truncate (copyfile d e.name name) name e.length, record e { name = name }))

-- The loop of `fileStore.SetBad` over the entries from `index` on.
unfoldable pub set_parts : Disk → FileStore → Disk × FileStore
unfolding set_part
set_parts d [] = (d, [])
set_parts d (x ∷ fs) =
    let (d1, entry) = set_part d x.entry in
    let (d2, fs') = set_parts d1 fs in (d2, record x { entry = entry } ∷ fs')

unfoldable pub set_bad : Disk → FileStore → ℕ → Disk × FileStore
unfolding set_parts
set_bad d fs from =
    let index = find fs from in
    let (d', bad) = set_parts d (drop index fs) in (d', take index fs ++ bad)

-- `fileEntry.Cleanup`
unfoldable pub entry_cleanup : Disk → FileEntry → Disk × FileEntry
unfolding copyfile replace_first
entry_cleanup d e =
    if is_part e
    then (let realname = replace_first e.name part_suffix [] in
        (update (copyfile d e.name realname) e.name none, record e { name = realname }))
    else (d, e)

-- `fileStore.Cleanup`. The loop ranges over copies of the entries, so the store keeps its names.
unfoldable pub cleanup : Disk → FileStore → Disk
unfolding entry_cleanup
cleanup d [] = d
cleanup d (x ∷ fs) = cleanup (entry_cleanup d x.entry).0 fs
