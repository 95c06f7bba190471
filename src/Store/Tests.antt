-- ===== src/Store/Tests.antt =====
-- Runs of the creation of a store, and the theorems at concrete inputs.
use rakoshare.Base.{ℕ, ◌≡◌, refl, List, [], ◌∷◌, ◌++◌, some, none}
use rakoshare.Files.{FileName, Disk, Located, name_eq, update}
use rakoshare.Store.{part_suffix, replace_first, part_name, cleanup}
use rakoshare.Store.Finish.{cleanup-moved}

abbrev empty_disk : Disk
empty_disk = λ name. none

-- `/s/a.txt` and `/s/b`.
abbrev file_a : FileName
file_a = b'/' ∷ b's' ∷ b'/' ∷ b'a' ∷ b'.' ∷ b't' ∷ b'x' ∷ b't' ∷ []

abbrev file_b : FileName
file_b = b'/' ∷ b's' ∷ b'/' ∷ b'b' ∷ []

abbrev two_files : List (FileName × ℕ)
two_files = (file_a, 3) ∷ (file_b, 2) ∷ []

-- The extension is taken out where it first stands, which may be the name of a directory.
part_in_directory :
    part_name (b'd' ∷ b'.' ∷ b'o' ∷ b'/' ∷ b'f' ∷ b'.' ∷ b'o' ∷ [])
    ≡ b'd' ∷ b'/' ∷ b'f' ∷ b'.' ∷ b'o' ∷ b'.' ∷ b'o' ∷ part_suffix
unfolding part_name name_eq
part_in_directory = refl

abbrev part_b : Located
part_b = record { offset = 0; entry = record { length = 1; name = file_b ++ part_suffix } }

abbrev plain_a : Located
plain_a = record { offset = 0; entry = record { length = 1; name = file_a } }

cleanup-moved_example :
    (cleanup
        (update empty_disk (file_b ++ part_suffix) (some (7 ∷ [])))
        (plain_a ∷ (part_b ∷ plain_a ∷ []))
        file_b
      ≡ some (7 ∷ []))
    × (cleanup
          (update empty_disk (file_b ++ part_suffix) (some (7 ∷ [])))
          (plain_a ∷ (part_b ∷ plain_a ∷ []))
          (file_b ++ part_suffix)
        ≡ none)
unfolding replace_first name_eq
cleanup-moved_example =
    cleanup-moved (plain_a ∷ []) (plain_a ∷ [])
      (update empty_disk (file_b ++ part_suffix) (some (7 ∷ []))) part_b (7 ∷ []) refl
      (unfold update in refl) refl ((refl, refl, refl, refl), tt) ((refl, refl, refl, refl), tt)
