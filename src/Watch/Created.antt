-- ===== src/Watch/Created.antt =====
-- The metainfo of a directory whose files can be read.
use rakoshare.Base.{
  ℕ, ◌+◌, ◌^◌, ◌<◌, ◌≡◌, refl, sym, ap, subst, ◌∙◌, inl, inr, List, [], ◌∷◌, ◌++◌, map, append-nil,
  append_assoc, length, arith, ◌==◌, if◌then◌else◌, true, false, Bool-cases, Option, none, some, ok,
  All,
}
use rakoshare.Watch.{
  BlockHasher, Visit, FileDict, InfoDict, MetaInfo, MetaError, Building, new_block_hasher,
  is_counted, torrent_walk, close_hasher, add_file, finish_meta, create_meta,
}
use rakoshare.Watch.Hashing.{concat, IsHashed, new_block_hasher-IsHashed, read_from-IsHashed}

-- The files that count can be opened and read.
abbrev pub IsReadable : Visit → Type 0
IsReadable v =
    is_counted v ≡ true → (v.failed ≡ false) × (bytes : List ℕ) × (v.content ≡ some bytes)

abbrev pub bytes_of : Option (List ℕ) → List ℕ
bytes_of none = []
bytes_of (some bytes) = bytes

-- The bytes of the files that count, one after the other, and their entries.
abbrev pub contents : List Visit → List ℕ
contents [] = []
contents (v ∷ visits) =
    if is_counted v then bytes_of v.content ++ contents visits else contents visits

abbrev pub entries : List Visit → List FileDict
entries [] = []
entries (v ∷ visits) =
    if is_counted v
    then record { length = v.size; path = v.parts } ∷ entries visits
    else entries visits

module _ {E S : Type 0} (f : Visit → S → Option E × S) (v : Visit) (visits : List Visit)
    (s s' : S) where
  torrent_walk-counted :
      is_counted v ≡ true
      → f v s ≡ (none, s')
      → torrent_walk f (v ∷ visits) s ≡ torrent_walk f visits s'
  unfolding torrent_walk
  torrent_walk-counted e h =
      rw (torrent_walk, e, h) (ap (λ (r : Option E × S). torrent_walk f visits r.1) h)

  torrent_walk-skipped :
      is_counted v ≡ false → torrent_walk f (v ∷ visits) s ≡ torrent_walk f visits s
  unfolding torrent_walk
  torrent_walk-skipped e = rw (torrent_walk, e) refl

entries-counted :
    (v : Visit) (visits : List Visit)
    → is_counted v ≡ true
    → entries (v ∷ visits) ≡ record { length = v.size; path = v.parts } ∷ entries visits
entries-counted v visits e = rw e refl

entries-skipped :
    (v : Visit) (visits : List Visit) → is_counted v ≡ false → entries (v ∷ visits) ≡ entries visits
entries-skipped v visits e = rw e refl

contents-counted :
    (v : Visit) (visits : List Visit) (bytes : List ℕ)
    → is_counted v ≡ true
    → v.content ≡ some bytes
    → contents (v ∷ visits) ≡ bytes ++ contents visits
contents-counted v visits bytes e f = rw (e, f) refl

contents-skipped :
    (v : Visit) (visits : List Visit)
    → is_counted v ≡ false
    → contents (v ∷ visits) ≡ contents visits
contents-skipped v visits e = rw e refl

module _ (sha1 : List ℕ → List ℕ) (n : ℕ) (positive : 0 < n) where
  add_file-IsHashed :
      (v : Visit) (bytes stream : List ℕ) (h : BlockHasher) (files : List FileDict)
      → IsHashed sha1 n positive stream h
      → v.failed ≡ false
      → v.content ≡ some bytes
      → (h' : BlockHasher) × (add_file sha1 v (ok h, files)
          ≡ (none, (ok h', files ++ (record { length = v.size; path = v.parts } ∷ []))))
        × IsHashed sha1 n positive (stream ++ bytes) h'
  unfolding add_file
  add_file-IsHashed v bytes stream h files k e f =
      let (h', g, k') =
        read_from-IsHashed sha1 n positive (length bytes + 1) stream bytes h k (omega arith) in
      (h', rw (add_file, e, f, g) refl, k')

  walk-IsHashed :
      (visits : List Visit) (stream : List ℕ) (h : BlockHasher) (files : List FileDict)
      → IsHashed sha1 n positive stream h
      → All IsReadable visits
      → (h' : BlockHasher) × (torrent_walk (add_file sha1) visits (ok h, files)
          ≡ (none, (ok h', files ++ entries visits)))
        × IsHashed sha1 n positive (stream ++ contents visits) h'
  unfolding torrent_walk
  walk-IsHashed [] stream h files k r = (h, rw (append-nil files) refl, rw (append-nil stream) k)
  walk-IsHashed (v ∷ visits) stream h files k (a, r) = elim (Bool-cases (is_counted v)) [
    | inr e ↦
        let (h', f, k') = walk-IsHashed visits stream h files k r in
        (
          h',
          torrent_walk-skipped (add_file sha1) v visits (ok h, files) (ok h, files) e
              ∙ (f
                  ∙ ap (λ (x : List FileDict). (none, (ok h', files ++ x)))
                      (sym (entries-skipped v visits e))),
          subst (λ (x : List ℕ). IsHashed sha1 n positive (stream ++ x) h')
              (sym (contents-skipped v visits e)) k',
        )
    | inl e ↦
        let (fine, bytes, content) = a e in
        let x : FileDict = record { length = v.size; path = v.parts } in
        let (h1, f, k1) = add_file-IsHashed v bytes stream h files k fine content in
        let (h2, g, k2) = walk-IsHashed visits (stream ++ bytes) h1 (files ++ (x ∷ [])) k1 r in
        let all : (files ++ (x ∷ [])) ++ entries visits ≡ files ++ entries (v ∷ visits) =
          append_assoc files (x ∷ []) (entries visits)
          ∙ ap (λ (y : List FileDict). files ++ y) (sym (entries-counted v visits e)) in
        let bytes_all : (stream ++ bytes) ++ contents visits ≡ stream ++ contents (v ∷ visits) =
          append_assoc stream bytes (contents visits)
          ∙ ap (λ (y : List ℕ). stream ++ y) (sym (contents-counted v visits bytes e content)) in
        (
          h2,
          torrent_walk-counted (add_file sha1) v visits (ok h, files) (ok h1, files ++ (x ∷ [])) e f
              ∙ (g ∙ ap (λ (y : List FileDict). (none, (ok h2, y))) all),
          subst (λ (y : List ℕ). IsHashed sha1 n positive y h2) bytes_all k2,
        )
  ]

-- The sums after `Close`, which leaves out an empty last block.
close_hasher-IsHashed :
    (sha1 : List ℕ → List ℕ) (n : ℕ) (positive : 0 < n) (stream : List ℕ) (h : BlockHasher)
    → (v : IsHashed sha1 n positive stream h)
    → (close_hasher sha1 h).pieces
      ≡ concat (map sha1 v.blocks) ++ (if length h.buffered == 0 then [] else sha1 h.buffered)
unfolding close_hasher
close_hasher-IsHashed sha1 n positive stream h v = elim (Bool-cases (length h.buffered == 0)) [
  | inl e ↦
      let same : (h.left == h.block_size) ≡ true = ground (arith, v.left, v.size) in
      rw (close_hasher, same, e) (v.sums ∙ sym (append-nil (concat (map sha1 v.blocks))))
  | inr e ↦
      let other : (h.left == h.block_size) ≡ false = ground (arith, v.left, v.size) in
      rw (close_hasher, other, e) (ap (λ (x : List ℕ). x ++ sha1 h.buffered) v.sums)
]

-- Where the files that count can be read and the info dictionary can be encoded, `createMeta` makes a
-- metainfo with an entry for each of them in the order of the walk, and as its pieces the sums of the blocks of 1 MiB of their bytes, one file
-- after the other, with the last block shorter and left out where it is empty.
pub create_meta-pieces :
    (sha1 : List ℕ → List ℕ) (encode : InfoDict → Option (List ℕ)) (visits : List Visit)
    → All IsReadable visits
    → ((info : InfoDict) → (bytes : List ℕ) × (encode info ≡ some bytes))
    → (meta : MetaInfo) × (blocks : List (List ℕ)) × (last : List ℕ) × (create_meta sha1 encode
          visits
        ≡ ok (none, some meta))
      × (meta.info.files ≡ entries visits)
      × (concat blocks ++ last ≡ contents visits)
      × All (λ (b : List ℕ). length b ≡ 2 ^ 20) blocks
      × (length last < 2 ^ 20)
      × (meta.info.pieces
          ≡ concat (map sha1 blocks) ++ (if length last == 0 then [] else sha1 last))
unfolding create_meta finish_meta
create_meta-pieces sha1 encode visits r encodes =
    let (h, e, v) =
      walk-IsHashed sha1 (2 ^ 20) (omega arith) visits [] (new_block_hasher (2 ^ 20)) []
        (new_block_hasher-IsHashed sha1 (2 ^ 20) (omega arith)) r in
    let info : InfoDict = record {
      pieces = (close_hasher sha1 h).pieces;
      piece_length = 2 ^ 20;
      name = b'r' ∷ b'a' ∷ b'k' ∷ b'o' ∷ b's' ∷ b'h' ∷ b'a' ∷ b'r' ∷ b'e' ∷ [];
      files = entries visits;
    } in
    let (bytes, f) = encodes info in
    (
      record { info = info; info_hash = sha1 bytes },
      v.blocks,
      h.buffered,
      ap (λ (x : Option MetaError × Building). finish_meta sha1 encode x) e
          ∙ rw (finish_meta, f) refl,
      refl,
      v.whole,
      v.sizes,
      omega (arith, v.left, v.short),
      close_hasher-IsHashed sha1 (2 ^ 20) (omega arith) (contents visits) h v,
    )
