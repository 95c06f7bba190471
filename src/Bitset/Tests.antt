-- ===== src/Bitset/Tests.antt =====
-- Runs of the bitset, and the theorems at concrete inputs.
use rakoshare.Base.{◌≡◌, ◌↔◌, refl, some, none, [], ◌∷◌, arith, pos}
use rakoshare.Bitset.{Bitset, new_from_bytes, find_next_set}
use rakoshare.Bitset.Valid.{IsValid}
use rakoshare.Bitset.Wire.{IsBytes, new_from_bytes_iff}

-- Ten pieces, of which the peer has the first and the tenth.
abbrev sample : Bitset
sample = record { b = 128 ∷ 64 ∷ []; n = 10; end_index = some 1; end_mask = 192 }

read_sample : new_from_bytes 10 (128 ∷ 64 ∷ []) ≡ some sample
unfolding new_from_bytes
read_sample = refl

read_spare : new_from_bytes 10 (128 ∷ 32 ∷ []) ≡ none
unfolding new_from_bytes
read_spare = refl

sample-IsBytes : IsBytes (128 ∷ 64 ∷ [])
sample-IsBytes i = ground arith

sample-IsValid : IsValid sample
sample-IsValid = ((new_from_bytes_iff 10 (128 ∷ 64 ∷ []) sample sample-IsBytes).0 read_sample).0

new_from_bytes_iff_example :
    (new_from_bytes 10 (128 ∷ 64 ∷ []) ≡ some sample)
    ↔ (IsValid sample × (sample.n ≡ 10) × (sample.b ≡ 128 ∷ 64 ∷ []))
new_from_bytes_iff_example = new_from_bytes_iff 10 (128 ∷ 64 ∷ []) sample sample-IsBytes

finds_ninth : find_next_set sample 1 ≡ pos 9
unfolding find_next_set
finds_ninth = refl
