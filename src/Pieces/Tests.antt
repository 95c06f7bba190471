-- ===== src/Pieces/Tests.antt =====
-- Runs of the sums. The sum of a piece repeats its first byte.
use rakoshare.Base.{ℕ, ◌≡◌, refl, List, [], ◌∷◌, get_or, replicate, some, none}
use rakoshare.Files.{Disk, FileStore, FileName, update, name_eq, read_at}
use rakoshare.Pieces.{compute_sums}

abbrev first_byte : List ℕ → List ℕ
first_byte piece = replicate 20 (get_or piece 0 0)

abbrev the_file : FileName
the_file = 97 ∷ []

abbrev disk : Disk
disk = update (λ _. none) the_file (some (1 ∷ 2 ∷ 3 ∷ 4 ∷ 5 ∷ []))

abbrev one_file : FileStore
one_file = record { offset = 0; entry = record { length = 5; name = the_file } } ∷ []

-- The sums of three pieces of two bytes arrive as the last, the first and the second.
abbrev arriving : List ℕ
arriving = 2 ∷ 0 ∷ 1 ∷ []

second_sum : get_or (compute_sums first_byte disk one_file 5 2 arriving) 25 0 ≡ 3
unfolding compute_sums update name_eq read_at
second_sum = refl
