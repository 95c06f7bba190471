-- ===== src/Files/Flat.antt =====
-- The contract of a file store: its files, one after the other, are one flat range of bytes.
use rakoshare.Base.{
  ℕ, zero, suc, ◌+◌, ◌-◌, ◌≤◌, ◌≡◌, refl, ap, Option, none, some, List, [], ◌∷◌, ◌++◌, length, take,
  drop, replicate, get_elem?, arith, length-append,
}
use rakoshare.Files.{Disk, Located, FileStore}

-- The offsets are the sums of the lengths before, from `base` on.
abbrev pub IsLaid : ℕ → FileStore → Type 0
IsLaid base [] = Unit
IsLaid base (x ∷ f) = (x.offset ≡ base) × IsLaid (base + x.entry.length) f

-- Every file is on the disk with its length.
abbrev pub IsBacked : Disk → FileStore → Type 0
IsBacked d [] = Unit
IsBacked d (x ∷ f) =
    ((c : List ℕ) × (d x.entry.name ≡ some c) × (length c ≡ x.entry.length)) × IsBacked d f

abbrev pub content : Option (List ℕ) → List ℕ
content none = []
content (some c) = c

abbrev pub flat : Disk → FileStore → List ℕ
flat d [] = []
flat d (x ∷ f) = content (d x.entry.name) ++ flat d f

abbrev pub total : FileStore → ℕ
total [] = 0
total (x ∷ f) = x.entry.length + total f

pub length-flat : (d : Disk) (f : FileStore) → IsBacked d f → length (flat d f) ≡ total f
length-flat d [] h = refl
length-flat d (x ∷ f) ((c, e, l), h) =
    rw e (omega (arith, length-append c (flat d f), length-flat d f h))

-- The bytes that a read of `n` bytes at `off` returns: those of the range, then zeros.
abbrev pub part : List ℕ → ℕ → ℕ → List ℕ
part bytes off n = take n (drop off bytes)

abbrev pub padded : List ℕ → ℕ → List ℕ
padded bytes n = bytes ++ replicate (n - length bytes) 0

abbrev pub offset_of : Option Located → ℕ
offset_of none = 0
offset_of (some x) = x.offset

-- Every entry starts at the base or later, and an entry ends where the next one starts.
pub offset_bound :
    (f : FileStore) (base r : ℕ)
    → IsLaid base f
    → (x : Located) → get_elem? f r ≡ some x
    → base ≤ x.offset
offset_bound [] base r laid x h = cc
offset_bound (y ∷ f) base zero (at, laid) x h =
    omega (arith, at, ap (λ (o : Option Located). offset_of o) h)
offset_bound (y ∷ f) base (suc r) (at, laid) x h =
    omega (arith, offset_bound f (base + y.entry.length) r laid x h)
