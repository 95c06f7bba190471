-- ===== src/Store/Marked.antt =====
-- The names that marking gives (`SetPart`), and what it does to one file.
use rakoshare.Base.{
  ℕ, ◌-◌, ◌≡◌, refl, ◌∙◌, List, [], ◌∷◌, ◌++◌, length, drop, append-nil, length-append,
  take-eq_of_le, drop-append_left, arith, leb, All, true, false, if◌then◌else◌, Bool-cases, inl,
  inr, some,
}
use rakoshare.Files.{FileName, Disk, FileEntry, Located, FileStore, name_eq, update}
use rakoshare.Files.Names.{Lacks, IsDistinct, name_eq_refl, update_self, update_other}
use rakoshare.Store.{part_suffix, has_suffix, resize, truncate, copyfile, set_part}
use rakoshare.Store.Open.{truncate-some}

-- The name that a file has once it is marked.
unfoldable pub marked : FileName → FileName
marked name = if has_suffix name part_suffix then name else name ++ part_suffix

-- Two files have different names, whether they are marked or not.
abbrev pub AreSpare : FileName → FileName → Type 0
AreSpare a b =
    (name_eq b a ≡ false)
    × (name_eq b (marked a) ≡ false)
    × (name_eq (marked b) a ≡ false)
    × (name_eq (marked b) (marked a) ≡ false)

abbrev pub IsSpare : FileStore → Type 0
IsSpare [] = Unit
IsSpare (x ∷ fs) = All (λ (y : Located). AreSpare x.entry.name y.entry.name) fs × IsSpare fs

pub IsSpare-IsDistinct : (fs : FileStore) → IsSpare fs → IsDistinct fs
IsSpare-IsDistinct [] h = tt
IsSpare-IsDistinct (x ∷ fs) (a, h) = (lacks fs a, IsSpare-IsDistinct fs h)
  where
    lacks :
        (fs : FileStore)
        → All (λ (y : Located). AreSpare x.entry.name y.entry.name) fs
        → Lacks x.entry.name fs
    lacks [] a = tt
    lacks (y ∷ fs) (b, a) = (b.0, lacks fs a)

has_suffix-append : (a : FileName) → has_suffix (a ++ part_suffix) part_suffix ≡ true
has_suffix-append a =
    let n = length-append a part_suffix in
    let long : leb (length part_suffix) (length (a ++ part_suffix)) ≡ true = ground (arith, n) in
    let rest : drop (length (a ++ part_suffix) - length part_suffix) (a ++ part_suffix)
        ≡ part_suffix =
      drop-append_left (length (a ++ part_suffix) - length part_suffix) a part_suffix
        (omega (arith, n)) in
    rw (long, rest) (name_eq_refl part_suffix)

pub marked-marked : (a : FileName) → marked (marked a) ≡ marked a
unfolding marked
marked-marked a = elim (Bool-cases (has_suffix a part_suffix)) [
  | inl e ↦ rw (e, e) refl
  | inr e ↦ rw (e, has_suffix-append a) refl
]

resize_self : (n : ℕ) (c : List ℕ) → length c ≡ n → resize n c ≡ c
resize_self n c e =
    let none_left : n - length c ≡ 0 = omega (arith, e) in
    rw (none_left, take-eq_of_le n c (omega (arith, e))) (append-nil c)

-- Marking a file moves its bytes to the new name, and changes no other file.
pub set_part_lem :
    (d : Disk) (e : FileEntry) (c : List ℕ)
    → d e.name ≡ some c
    → length c ≡ e.length
    → ((set_part d e).1 ≡ record e { name = marked e.name })
      × ((set_part d e).0 (marked e.name) ≡ some c)
      × ((other : FileName)
          → name_eq (marked e.name) other ≡ false
          → (set_part d e).0 other ≡ d other)
unfolding set_part copyfile marked
set_part_lem d e c at n = elim (Bool-cases (has_suffix e.name part_suffix)) [
  | inl s ↦ rw (set_part, marked, s) (refl, at, λ other h. refl)
  | inr s ↦
      let name = e.name ++ part_suffix in
      let d1 = update d name (some c) in
      let cut : truncate d1 name e.length ≡ update d1 name (some c) =
        truncate-some d1 name e.length c (update_self d name (some c))
        ∙ rw (resize_self e.length c n) refl in
      rw (set_part, marked, s, copyfile, at, cut)
        (
          refl,
          update_self d1 name (some c),
          λ other h. update_other d1 name (some c) other h ∙ update_other d name (some c) other h,
        )
]
