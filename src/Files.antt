-- ===== src/Files.antt =====
-- files.go: the files of a torrent as one range of bytes.
-- A name and a content are lists of bytes; the disk is a function from names to contents, and
-- opening a name that it lacks is the one error of the operating system that is modelled.
-- The slices `offsets` and `files` always have one length, so they are one list here.
pub mod Search
pub mod Flat
pub mod Find
pub mod FlatRead
pub mod Names
pub mod Read
pub mod Overlay
pub mod Written
pub mod Write
pub mod Range
pub mod Disjoint
mod Tests
use rakoshare.Base.{
  ℕ, zero, suc, ◌+◌, ◌-◌, ◌/◌, min, Bool, true, false, not, ◌&&◌, Option, none, some, List, [], ◌∷◌,
  ◌++◌, length, take, drop, replicate, get_elem?, ltb, leb, ◌==◌, if◌then◌else◌,
}
use Search.{search}

abbrev pub FileName : Type 0
FileName = List ℕ

unfoldable pub name_eq : FileName → FileName → Bool
name_eq [] [] = true
name_eq (x ∷ xs) (y ∷ ys) = (x == y) && name_eq xs ys
name_eq _ _ = false

abbrev pub Disk : Type 0
Disk = FileName → Option (List ℕ)

unfoldable pub update : Disk → FileName → Option (List ℕ) → Disk
update d name content other = if name_eq name other then content else d other

pub data Error : Type 0 where
  not_found eof negative_offset non_zero_data : Error

pub record FileEntry : Type 0 where
  pub length : ℕ
  pub name : FileName

-- An entry with its offset.
pub record Located : Type 0 where
  pub offset : ℕ
  pub entry : FileEntry

abbrev pub FileStore : Type 0
FileStore = List Located

-- What a call of ReadAt leaves: the buffer, the count and the error.
pub record ReadResult : Type 0 where
  pub buffer : List ℕ
  pub count : ℕ
  pub error : Option Error

-- What a call of WriteAt leaves: the disk, the count and the error.
pub record WriteResult : Type 0 where
  pub disk : Disk
  pub count : ℕ
  pub error : Option Error

-- `os.File.ReadAt`: as much as there is, with EOF where that is less than the buffer.
unfoldable pub read_content : List ℕ → List ℕ → ℕ → ReadResult
read_content content p off =
    let got = take (length p) (drop off content) in
    record {
      buffer = got ++ drop (length got) p;
      count = length got;
      error = if ltb (length got) (length p) then some eof else none;
    }

-- `fileEntry.ReadAt`
unfoldable pub entry_read_at : Disk → FileEntry → List ℕ → ℕ → ReadResult
unfolding read_content
entry_read_at d e p off = elim (d e.name) [
  | none ↦ record { buffer = p; count = 0; error = some not_found }
  | some content ↦ read_content content p off
]

-- `os.File.WriteAt`, which fills a gap before the written bytes with zeros.
unfoldable pub write_content : List ℕ → List ℕ → ℕ → List ℕ
write_content content p off =
    take off (content ++ replicate (off - length content) 0) ++ (p ++ drop (off + length p) content)

-- `fileEntry.WriteAt`
unfoldable pub entry_write_at : Disk → FileEntry → List ℕ → ℕ → WriteResult
unfolding write_content update
entry_write_at d e p off = elim (d e.name) [
  | none ↦ record { disk = d; count = 0; error = some not_found }
  | some content ↦ record {
    disk = update d e.name (some (write_content content p off));
    count = length p;
    error = none;
  }
]

-- The predicate that `find` hands to `sort.Search`.
unfoldable pub reaches : FileStore → ℕ → ℕ → Bool
reaches f offset i =
    if leb (length f - 1) i
    then true
    else elim (get_elem? f (i + 1)) [ none ↦ false | some x ↦ leb offset x.offset ]

unfoldable pub find : FileStore → ℕ → ℕ
unfolding reaches search
find f offset = search (length f) (reaches f offset)

-- The loop of `fileStore.ReadAt` over the entries from `index` on, and the zeros after them.
unfoldable pub read_loop : Disk → FileStore → List ℕ → ℕ → ReadResult
read_loop d [] p off = record { buffer = replicate (length p) 0; count = 0; error = none }
read_loop d (x ∷ rest) p off =
    if length p == 0
    then record { buffer = []; count = 0; error = none }
    else if ltb off x.offset
    then record { buffer = p; count = 0; error = some negative_offset }
    else let item_offset = off - x.offset in
      if ltb item_offset x.entry.length
      then (let chunk = min (length p) (x.entry.length - item_offset) in
          let here = entry_read_at d x.entry (take chunk p) item_offset in
          let p' = here.buffer ++ drop chunk p in
          let there = read_loop d rest (drop here.count p') (off + here.count) in
          elim here.error [
            | some e ↦ record { buffer = p'; count = here.count; error = some e }
            | none ↦ record {
              buffer = take here.count p' ++ there.buffer;
              count = here.count + there.count;
              error = there.error;
            }
          ])
      else read_loop d rest p off

-- `fileStore.ReadAt`
unfoldable pub read_at : Disk → FileStore → List ℕ → ℕ → ReadResult
unfolding read_loop entry_read_at find
read_at d f p off = read_loop d (drop (find f off) f) p off

-- The end of `fileStore.WriteAt`: past the last file only zeros may be written.
unfoldable pub write_tail : Disk → List ℕ → ℕ → WriteResult
write_tail d [] n = record { disk = d; count = n; error = none }
write_tail d (zero ∷ p) n = write_tail d p (n + 1)
write_tail d (suc v ∷ p) n = record { disk = d; count = n; error = some non_zero_data }

-- The loop of `fileStore.WriteAt` over the entries from `index` on. `n` is the count so far.
unfoldable pub write_loop : Disk → FileStore → List ℕ → ℕ → ℕ → WriteResult
write_loop d [] p off n = write_tail d p n
write_loop d (x ∷ rest) p off n =
    if length p == 0
    then record { disk = d; count = n; error = none }
    else if ltb off x.offset
    then record { disk = d; count = n; error = some negative_offset }
    else let item_offset = off - x.offset in
      if ltb item_offset x.entry.length
      then (let chunk = min (length p) (x.entry.length - item_offset) in
          let here = entry_write_at d x.entry (take chunk p) item_offset in
          let there =
            write_loop here.disk rest (drop here.count p) (off + here.count) (n + here.count) in
          elim here.error [
            | some e ↦ record { disk = here.disk; count = n + here.count; error = some e }
            | none ↦ there
          ])
      else write_loop d rest p off n

-- `fileStore.WriteAt`
unfoldable pub write_at : Disk → FileStore → List ℕ → ℕ → WriteResult
unfolding write_loop write_tail entry_write_at find
write_at d f p off = write_loop d (drop (find f off) f) p off 0
