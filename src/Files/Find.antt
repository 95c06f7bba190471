-- ===== src/Files/Find.antt =====
-- `fileStore.find`: the entry at which a read or a write begins.
use rakoshare.Base.{
  ℕ, zero, suc, ◌+◌, ◌-◌, ◌≤◌, ◌<◌, ◌≡◌, ap, true, false, some, [], ◌∷◌, length, get_elem?, arith,
  dec_lt,
}
use rakoshare.Files.{Located, FileStore, reaches, find}
use rakoshare.Files.Search.{IsBoundary, search-IsBoundary}
use rakoshare.Files.Flat.{IsLaid, offset_of}

find-IsBoundary : (f : FileStore) (off : ℕ) → IsBoundary (reaches f off) 0 (length f) (find f off)
unfolding find
find-IsBoundary f off = search-IsBoundary (length f) (reaches f off)

reaches-last : (f : FileStore) (off i : ℕ) → i + 1 ≡ length f → reaches f off i ≡ true
unfolding reaches
reaches-last f off i h = ground arith

reaches-false :
    (f : FileStore) (off i : ℕ) (x : Located)
    → reaches f off i ≡ false
    → get_elem? f (i + 1) ≡ some x
    → x.offset < off
unfolding reaches
reaches-false f off i x h e = ground arith

-- Unless there is no entry at all, `find` returns the index of one.
pub find-lt : (f : FileStore) (off : ℕ) → 0 < length f → find f off < length f
find-lt f off h =
    let b = find-IsBoundary f off in
    elim (dec_lt (find f off) (length f)) [
      | yes p ↦ p
      | no p ↦
          let e : length f - 1 + 1 ≡ find f off = omega (arith, b.below) in
          cc (
            b.fails (length f - 1) (omega arith) e,
            reaches-last f off (length f - 1) (omega arith),
          )
    ]

first : (f : FileStore) → IsLaid 0 f → (x : Located) → get_elem? f 0 ≡ some x → x.offset ≡ 0
first [] laid x h = cc
first (y ∷ f) laid x h = omega (arith, laid.0, ap offset_of h)

-- That entry starts at the offset or before it.
pub find-offset :
    (f : FileStore) (off : ℕ)
    → IsLaid 0 f
    → (x : Located) → get_elem? f (find f off) ≡ some x
    → x.offset ≤ off
find-offset f off laid x = at (find f off) (find-IsBoundary f off)
  where
    at :
        (r : ℕ)
        → IsBoundary (reaches f off) 0 (length f) r
        → get_elem? f r ≡ some x
        → x.offset ≤ off
    at zero b h = omega (arith, first f laid x h)
    at (suc r) b h =
        let e : r + 1 ≡ suc r = omega arith in
        omega (arith, reaches-false f off r x (b.fails r (omega arith) e) (rw e h))

pub find-nil : (off : ℕ) → find [] off ≤ 0
find-nil off = (find-IsBoundary [] off).below
