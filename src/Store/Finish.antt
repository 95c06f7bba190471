-- ===== src/Store/Finish.antt =====
-- What `Cleanup` leaves of the files of a store.
use rakoshare.Base.{
  ℕ, List, ◌++◌, Bool-cases, ◌≡◌, refl, ◌∙◌, [], ◌∷◌, All, true, false, Option-cases, inl, inr,
  none, some,
}
use rakoshare.Files.{FileName, Disk, FileEntry, Located, FileStore, name_eq}
use rakoshare.Files.Names.{update_self, update_other}
use rakoshare.Store.{part_suffix, replace_first, is_part, copyfile, entry_cleanup, cleanup}

-- The name that `Cleanup` gives to an entry.
abbrev pub real_name : FileEntry → FileName
real_name e = replace_first e.name part_suffix []

copyfile-other :
    (d : Disk) (from to other : FileName)
    → name_eq to other ≡ false
    → copyfile d from to other ≡ d other
unfolding copyfile
copyfile-other d from to other h = elim (Option-cases (d from)) [
  | inl e ↦ rw (copyfile, e)
  | inr (c, e) ↦ rw (copyfile, e) (update_other d to (some c) other h)
]

entry_cleanup-other :
    (d : Disk) (e : FileEntry) (other : FileName)
    → name_eq e.name other ≡ false
    → name_eq (real_name e) other ≡ false
    → (entry_cleanup d e).0 other ≡ d other
unfolding entry_cleanup
entry_cleanup-other d e other h k = elim (Bool-cases (is_part e)) [
  | inl f ↦
      rw (entry_cleanup, f)
        (update_other (copyfile d e.name (real_name e)) e.name none other h
          ∙ copyfile-other d e.name (real_name e) other k)
  | inr f ↦ rw (entry_cleanup, f) refl
]

-- An entry has neither of the two names, and is not renamed to one of them.
abbrev pub IsApart : FileEntry → Located → Type 0
IsApart e y =
    (name_eq y.entry.name e.name ≡ false)
    × (name_eq (real_name y.entry) e.name ≡ false)
    × (name_eq y.entry.name (real_name e) ≡ false)
    × (name_eq (real_name y.entry) (real_name e) ≡ false)

cleanup-other :
    (fs : FileStore) (d : Disk) (e : FileEntry)
    → All (IsApart e) fs
    → (cleanup d fs e.name ≡ d e.name) × (cleanup d fs (real_name e) ≡ d (real_name e))
unfolding cleanup
cleanup-other [] d e h = (refl, refl)
cleanup-other (y ∷ fs) d e ((a, b, c, f), h) =
    let (name, real) = cleanup-other fs (entry_cleanup d y.entry).0 e h in
    (
      name ∙ entry_cleanup-other d y.entry e.name a b,
      real ∙ entry_cleanup-other d y.entry (real_name e) c f,
    )

-- `Cleanup` of a store gives the bytes of a part file to the file with its real name and removes the
-- part file, whatever its other entries are, where none of them has or gets one of these two names,
-- and the two names differ.
pub cleanup-moved :
    (before later : FileStore) (d : Disk) (x : Located) (content : List ℕ)
    → is_part x.entry ≡ true
    → d x.entry.name ≡ some content
    → name_eq x.entry.name (real_name x.entry) ≡ false
    → All (IsApart x.entry) before
    → All (IsApart x.entry) later
    → (cleanup d (before ++ (x ∷ later)) (real_name x.entry) ≡ some content)
      × (cleanup d (before ++ (x ∷ later)) x.entry.name ≡ none)
unfolding cleanup entry_cleanup copyfile
cleanup-moved [] later d x content part there differ h k =
    let e = x.entry in
    let (name, real) = cleanup-other later (entry_cleanup d e).0 e k in
    let gone : (entry_cleanup d e).0 e.name ≡ none =
      rw (entry_cleanup, part) (update_self (copyfile d e.name (real_name e)) e.name none) in
    let copied : copyfile d e.name (real_name e) (real_name e) ≡ some content =
      rw (copyfile, there) (update_self d (real_name e) (some content)) in
    let moved : (entry_cleanup d e).0 (real_name e) ≡ some content =
      rw (entry_cleanup, part)
        (update_other (copyfile d e.name (real_name e)) e.name none (real_name e) differ
          ∙ copied) in
    (real ∙ moved, name ∙ gone)
cleanup-moved (y ∷ before) later d x content part there differ ((a, b, c, f), h) k =
    cleanup-moved before later (entry_cleanup d y.entry).0 x content part
      (entry_cleanup-other d y.entry x.entry.name a b ∙ there) differ h k
