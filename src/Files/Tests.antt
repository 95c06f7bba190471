-- ===== src/Files/Tests.antt =====
-- Runs of the file store, and the theorems at concrete inputs.
use rakoshare.Base.{◌-◌, ◌≡◌, ◌↔◌, refl, none, some, [], ◌∷◌, length, drop}
use rakoshare.Files.{FileName, Disk, FileStore, name_eq, update, read_at, write_at}
use rakoshare.Files.Flat.{IsLaid, IsBacked, flat, part, padded}
use rakoshare.Files.Names.{Lacks, IsDistinct}
use rakoshare.Files.Overlay.{overlay}
use rakoshare.Files.Read.{read_at-flat}
use rakoshare.Files.Range.{IsZeros, write_at-flat}

-- Two files of three and two bytes.
abbrev name_a : FileName
name_a = 97 ∷ []

abbrev name_b : FileName
name_b = 98 ∷ []

abbrev two_files : FileStore
two_files =
    record { offset = 0; entry = record { length = 3; name = name_a } }
    ∷ record { offset = 3; entry = record { length = 2; name = name_b } }
    ∷ []

abbrev disk : Disk
disk = update (update (λ _. none) name_a (some (1 ∷ 2 ∷ 3 ∷ []))) name_b (some (4 ∷ 5 ∷ []))

disk-IsBacked : IsBacked disk two_files
unfolding update name_eq
disk-IsBacked = ((1 ∷ 2 ∷ 3 ∷ [], refl, refl), ((4 ∷ 5 ∷ [], refl, refl), tt))

two_files-IsLaid : IsLaid 0 two_files
two_files-IsLaid = (refl, (refl, tt))

two_files-IsDistinct : IsDistinct two_files
unfolding name_eq
two_files-IsDistinct = ((refl, tt), (tt, tt))

-- A read across the two files and past their end.
read_across :
    read_at disk two_files (9 ∷ 9 ∷ 9 ∷ 9 ∷ []) 2
    ≡ record { buffer = 3 ∷ 4 ∷ 5 ∷ 0 ∷ []; count = 3; error = none }
unfolding read_at update name_eq
read_across = refl

read_at-flat_example : read_at disk two_files (9 ∷ 9 ∷ 9 ∷ 9 ∷ []) 2 ≡ record {
  buffer = padded (part (flat disk two_files) 2 4) 4;
  count = length (part (flat disk two_files) 2 4);
  error = none;
}
read_at-flat_example =
    read_at-flat disk two_files (9 ∷ 9 ∷ 9 ∷ 9 ∷ []) 2 two_files-IsLaid disk-IsBacked

write_at-flat_example :
    let r = write_at disk two_files (7 ∷ 8 ∷ []) 2 in
    IsBacked r.disk two_files
    × (flat r.disk two_files ≡ overlay (flat disk two_files) (7 ∷ 8 ∷ []) 2)
    × ((name : FileName) → Lacks name two_files → r.disk name ≡ disk name)
    × ((r.error ≡ none) ↔ IsZeros (drop (length (flat disk two_files) - 2) (7 ∷ 8 ∷ [])))
    × (IsZeros (drop (length (flat disk two_files) - 2) (7 ∷ 8 ∷ [])) → r.count ≡ 2)
write_at-flat_example =
    write_at-flat disk two_files (7 ∷ 8 ∷ []) 2 two_files-IsLaid disk-IsBacked two_files-IsDistinct
