-- ===== src/Store/Open.antt =====
-- A store that has been created is laid out and on the disk.
use rakoshare.Base.{
  ℕ, ◌+◌, ◌-◌, ◌≡◌, refl, ◌∙◌, List, [], ◌∷◌, ◌++◌, length, take, replicate, length-append,
  length-take, length-replicate, arith, All, false, not, ◌==◌, Bool-cases, Option-cases, inl, inr,
  ◌⊎◌, none, some,
}
use rakoshare.Files.{FileName, Disk, FileEntry, name_eq, update}
use rakoshare.Files.Flat.{IsLaid, IsBacked, total}
use rakoshare.Files.Names.{update_self, update_other}
use rakoshare.Store.{
  part_suffix, part_name, resize, truncate, need_to_retrieve, entry_open, open_files,
  new_file_store,
}

length-resize : (n : ℕ) (content : List ℕ) → length (resize n content) ≡ n
length-resize n content = omega (
  arith,
  length-append (take n content) (replicate (n - length content) 0),
  length-take n content,
  length-replicate {A = ℕ} (n - length content) 0,
)

pub truncate-some :
    (d : Disk) (name : FileName) (n : ℕ) (content : List ℕ)
    → d name ≡ some content
    → truncate d name n ≡ update d name (some (resize n content))
unfolding truncate
truncate-some d name n content e = rw (truncate, e)

-- The file of an entry is on the disk with the entry's length.
abbrev pub IsOnDisk : Disk → FileEntry → Type 0
IsOnDisk d e = (c : List ℕ) × (d e.name ≡ some c) × (length c ≡ e.length)

retrieved :
    (d : Disk) (name : FileName) (n : ℕ)
    → truncate (update d name (some [])) name n
      ≡ update (update d name (some [])) name (some (resize n []))
retrieved d name n =
    truncate-some (update d name (some [])) name n [] (update_self d name (some []))

-- What `open` leaves: the entry is one of two names, and its file is there.
entry_open_lem :
    (d : Disk) (name : FileName) (n : ℕ)
    → IsOnDisk (entry_open d name n).0 (entry_open d name n).1
      × ((entry_open d name n).1.length ≡ n)
      × (((entry_open d name n).1.name ≡ name) ⊎ ((entry_open d name n).1.name ≡ part_name name))
unfolding entry_open need_to_retrieve
entry_open_lem d name n =
    let d1 = update d (name ++ part_suffix) none in
    elim (Bool-cases (need_to_retrieve d1 name n)) [
      | inl e ↦
          let made =
            update_self (update d1 (part_name name) (some [])) (part_name name)
              (some (resize n [])) in
          rw (entry_open, e, retrieved d1 (part_name name) n)
            ((resize n [], made, length-resize n []), refl, inr refl)
      | inr e ↦ elim (Option-cases (d1 name)) [
        | inl f ↦ cc (rw (need_to_retrieve, f) at e)
        | inr (c, f) ↦
            let size : not (length c == n) ≡ false = rw (need_to_retrieve, f) at e in
            rw (entry_open, e) ((c, f, ground (arith, size)), refl, inl refl)
      ]
    ]

-- A name that `open` neither removes nor creates.
abbrev pub IsApart : FileName → FileName → Type 0
IsApart other name =
    (name_eq (name ++ part_suffix) other ≡ false) × (name_eq (part_name name) other ≡ false)

entry_open-other :
    (d : Disk) (name other : FileName) (n : ℕ)
    → IsApart other name
    → (entry_open d name n).0 other ≡ d other
unfolding entry_open
entry_open-other d name other n (a, b) =
    let d1 = update d (name ++ part_suffix) none in
    let removed = update_other d (name ++ part_suffix) none other a in
    elim (Bool-cases (need_to_retrieve d1 name n)) [
      | inr e ↦ rw (entry_open, e) removed
      | inl e ↦
          let made = update d1 (part_name name) (some []) in
          rw (entry_open, e, retrieved d1 (part_name name) n)
            (update_other made (part_name name) (some (resize n [])) other b
              ∙ (update_other d1 (part_name name) (some []) other b ∙ removed))
    ]

module _ {Source : Type 0} (full_path : Source → FileName) where
  -- No later file removes or creates either of the names that the file may get.
  abbrev pub AreApart : List (Source × ℕ) → Type 0
  AreApart [] = Unit
  AreApart ((src, n) ∷ files) =
      All
        (λ (f : Source × ℕ).
          IsApart (full_path src) (full_path f.0)
          × IsApart (part_name (full_path src)) (full_path f.0))
        files
      × AreApart files

  open_files-other :
      (files : List (Source × ℕ)) (d : Disk) (other : FileName) (from : ℕ)
      → All (λ (f : Source × ℕ). IsApart other (full_path f.0)) files
      → (open_files full_path d files from).0 other ≡ d other
  unfolding open_files
  open_files-other [] d other from h = refl
  open_files-other ((src, n) ∷ files) d other from (a, h) =
      open_files-other files (entry_open d (full_path src) n).0 other (from + n) h
      ∙ entry_open-other d (full_path src) other n a

  -- One of two names is apart from the later files where both are.
  either-IsApart :
      (name src : FileName) (files : List (Source × ℕ))
      → (name ≡ src) ⊎ (name ≡ part_name src)
      → All
          (λ (f : Source × ℕ).
            IsApart src (full_path f.0) × IsApart (part_name src) (full_path f.0))
          files
      → All (λ (f : Source × ℕ). IsApart name (full_path f.0)) files
  either-IsApart name src [] which h = tt
  either-IsApart name src (f ∷ files) (inl e) ((a, b), h) =
      (rw e a, either-IsApart name src files (inl e) h)
  either-IsApart name src (f ∷ files) (inr e) ((a, b), h) =
      (rw e b, either-IsApart name src files (inr e) h)

  pub open_files_lem :
      (files : List (Source × ℕ)) (d : Disk) (from : ℕ)
      → AreApart files
      → IsLaid from (open_files full_path d files from).1
        × IsBacked (open_files full_path d files from).0 (open_files full_path d files from).1
        × ((open_files full_path d files from).2
            ≡ from + total (open_files full_path d files from).1)
  unfolding open_files
  open_files_lem [] d from h = (tt, tt, omega arith)
  open_files_lem ((src, n) ∷ files) d from (apart, h) =
      let d1 = (entry_open d (full_path src) n).0 in
      let ((c, at, size), len, which) = entry_open_lem d (full_path src) n in
      let (laid, backed, sum) = open_files_lem files d1 (from + n) h in
      let later =
        either-IsApart (entry_open d (full_path src) n).1.name (full_path src) files which apart in
      let kept =
        open_files-other files d1 (entry_open d (full_path src) n).1.name (from + n) later in
      ((refl, rw len laid), ((c, kept ∙ at, size), backed), omega (arith, sum, len))

-- Where no file of a torrent removes or creates a name that a file before it may get,
-- `NewFileStore` leaves a store whose offsets are the sums of the lengths and whose files are on the
-- disk with these lengths, and the total size is their sum.
new_file_store-IsBacked :
    {Source : Type 0} (full_path : Source → FileName) (d : Disk) (single file : Source × ℕ)
    (files : List (Source × ℕ))
    → AreApart full_path (file ∷ files)
    → IsLaid 0 (new_file_store full_path d single (file ∷ files)).1
      × IsBacked
          (new_file_store full_path d single (file ∷ files)).0
          (new_file_store full_path d single (file ∷ files)).1
      × ((new_file_store full_path d single (file ∷ files)).2
          ≡ total (new_file_store full_path d single (file ∷ files)).1)
unfolding new_file_store
new_file_store-IsBacked full_path d single file files h =
    let (laid, backed, sum) = open_files_lem full_path (file ∷ files) d 0 h in
    (laid, backed, sum ∙ omega arith)
