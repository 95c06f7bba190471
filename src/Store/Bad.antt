-- ===== src/Store/Bad.antt =====
-- Marking files as parts (`SetBad`) keeps the bytes of the store.
use rakoshare.Base.{ℕ, zero, suc, ◌+◌, ◌≡◌, refl, ◌∙◌, [], ◌∷◌, ◌++◌, take, drop, All, false}
use rakoshare.Files.{FileName, Disk, Located, FileStore, name_eq, find}
use rakoshare.Files.Flat.{IsLaid, IsBacked, flat}
use rakoshare.Files.Names.{name_eq_comm}
use rakoshare.Store.{set_part, set_parts, set_bad}
use rakoshare.Store.Marked.{marked, AreSpare, IsSpare, marked-marked, set_part_lem}

-- Where two disks agree on the files of a store.
abbrev Agree : Disk → Disk → FileStore → Type 0
Agree d' d fs = All (λ (y : Located). d' y.entry.name ≡ d y.entry.name) fs

IsBacked-of_Agree : (d' d : Disk) (fs : FileStore) → Agree d' d fs → IsBacked d fs → IsBacked d' fs
IsBacked-of_Agree d' d [] a b = tt
IsBacked-of_Agree d' d (y ∷ fs) (e, a) ((c, at, n), b) =
    ((c, e ∙ at, n), IsBacked-of_Agree d' d fs a b)

flat_of_Agree : (d' d : Disk) (fs : FileStore) → Agree d' d fs → flat d' fs ≡ flat d fs
flat_of_Agree d' d [] a = refl
flat_of_Agree d' d (y ∷ fs) (e, a) = rw (e, flat_of_Agree d' d fs a) refl

-- No file of the store is marked with this name.
abbrev pub IsFree : FileName → FileStore → Type 0
IsFree other fs = All (λ (y : Located). name_eq (marked y.entry.name) other ≡ false) fs

-- What marking leaves of the files `fs` on `d`.
pub record IsMarked (base : ℕ) (d : Disk) (fs : FileStore) (d' : Disk) (fs' : FileStore)
    : Type 0 where
  pub laid : IsLaid base fs'
  pub backed : IsBacked d' fs'
  pub bytes : flat d' fs' ≡ flat d fs
  pub spare : IsSpare fs'
  pub apart :
      (name : FileName)
      → All (λ (y : Located). AreSpare name y.entry.name) fs
      → All (λ (y : Located). AreSpare name y.entry.name) fs'
  pub others : (other : FileName) → IsFree other fs → d' other ≡ d other

AreSpare-marked_left : (a b : FileName) → AreSpare a b → AreSpare (marked a) b
AreSpare-marked_left a b h = rw (marked-marked a) (h.1, h.1, h.3, h.3)

AreSpare-marked_right : (a b : FileName) → AreSpare a b → AreSpare a (marked b)
AreSpare-marked_right a b h = rw (marked-marked b) (h.2, h.3, h.2, h.3)

All-marked_left :
    (a : FileName) (fs : FileStore)
    → All (λ (y : Located). AreSpare a y.entry.name) fs
    → All (λ (y : Located). AreSpare (marked a) y.entry.name) fs
All-marked_left a [] h = tt
All-marked_left a (y ∷ fs) (h, rest) =
    (AreSpare-marked_left a y.entry.name h, All-marked_left a fs rest)

-- Marking `a` leaves the files that are apart from it alone.
Agree-of_spare :
    (a : FileName) (d' d : Disk) (fs : FileStore)
    → ((other : FileName) → name_eq (marked a) other ≡ false → d' other ≡ d other)
    → All (λ (y : Located). AreSpare a y.entry.name) fs
    → Agree d' d fs
Agree-of_spare a d' d [] keep h = tt
Agree-of_spare a d' d (y ∷ fs) keep (h, rest) = (
  keep y.entry.name (name_eq_comm (marked a) y.entry.name ∙ h.1),
  Agree-of_spare a d' d fs keep rest,
)

IsFree-of-spare :
    (a : FileName) (fs : FileStore)
    → All (λ (y : Located). AreSpare a y.entry.name) fs
    → IsFree a fs
IsFree-of-spare a [] h = tt
IsFree-of-spare a (y ∷ fs) (h, rest) = (h.2, IsFree-of-spare a fs rest)

set_parts_lem :
    (fs : FileStore) (d : Disk) (base : ℕ)
    → IsLaid base fs
    → IsBacked d fs
    → IsSpare fs
    → IsMarked base d fs (set_parts d fs).0 (set_parts d fs).1
unfolding set_parts
set_parts_lem [] d base laid backed spare = record {
  laid = tt;
  backed = tt;
  bytes = refl;
  spare = tt;
  apart = λ name h. tt;
  others = λ other h. refl;
}
set_parts_lem (x ∷ fs) d base (here, laid) ((c, at, n), backed) (far, spare) =
    let a = x.entry.name in
    let (entry, moved, keep) = set_part_lem d x.entry c at n in
    let d1 = (set_part d x.entry).0 in
    let agree = Agree-of_spare a d1 d fs keep far in
    let rest =
      set_parts_lem fs d1 (base + x.entry.length) laid (IsBacked-of_Agree d1 d fs agree backed)
        spare in
    let kept =
      rest.others (marked a) (IsFree-of-spare (marked a) fs (All-marked_left a fs far)) ∙ moved in
    rw entry record {
      laid = (here, rest.laid);
      backed = ((c, kept, n), rest.backed);
      bytes = rw (kept, at, rest.bytes, flat_of_Agree d1 d fs agree) refl;
      spare = (rest.apart (marked a) (All-marked_left a fs far), rest.spare);
      apart = λ name (h, all). (AreSpare-marked_right name a h, rest.apart name all);
      others = λ other (h, free). rest.others other free ∙ keep other h;
    }

-- `SetBad` from an index of the files on.
abbrev pub mark_from : ℕ → Disk → FileStore → Disk × FileStore
mark_from k d fs = let (d', bad) = set_parts d (drop k fs) in (d', take k fs ++ bad)

mark_from_lem :
    (k : ℕ) (fs : FileStore) (d : Disk) (base : ℕ)
    → IsLaid base fs
    → IsBacked d fs
    → IsSpare fs
    → IsMarked base d fs (mark_from k d fs).0 (mark_from k d fs).1
mark_from_lem zero fs d base laid backed spare = set_parts_lem fs d base laid backed spare
mark_from_lem (suc k) [] d base laid backed spare = set_parts_lem [] d base laid backed spare
mark_from_lem (suc k) (x ∷ fs) d base (here, laid) ((c, at, n), backed) (far, spare) =
    let a = x.entry.name in
    let rest = mark_from_lem k fs d (base + x.entry.length) laid backed spare in
    let kept = rest.others a (IsFree-of-spare a fs far) ∙ at in
    record {
      laid = (here, rest.laid);
      backed = ((c, kept, n), rest.backed);
      bytes = rw (kept, at, rest.bytes) refl;
      spare = (rest.apart a far, rest.spare);
      apart = λ name (h, all). (h, rest.apart name all);
      others = λ other (h, free). rest.others other free;
    }

-- `SetBad` keeps the bytes of the store.
pub set_bad-IsMarked :
    (d : Disk) (fs : FileStore) (from : ℕ)
    → IsLaid 0 fs
    → IsBacked d fs
    → IsSpare fs
    → IsMarked 0 d fs (set_bad d fs from).0 (set_bad d fs from).1
unfolding set_bad
set_bad-IsMarked d fs from laid backed spare = mark_from_lem (find fs from) fs d 0 laid backed spare
