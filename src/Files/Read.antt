-- ===== src/Files/Read.antt =====
-- `fileStore.ReadAt` reads the flat range of bytes.
use rakoshare.Base.{
  ℕ, zero, suc, ◌+◌, ◌-◌, ◌≤◌, ◌<◌, ◌≡◌, refl, sym, ◌∙◌, min, none, some, List, [], ◌∷◌, ◌++◌,
  length, take, drop, get_elem?, arith, length-take, length-drop, take-eq_of_le, drop-eq_of_le,
  append-nil, dec_lt, take-nil, drop-nil, ltb_refl, get_elem?-eq_some, suc-==-zero, dec_le,
  ltb-eq-false, lt→ltb, subst, take-length-append, drop-length-append,
}
use rakoshare.Files.{Disk, FileEntry, Located, FileStore, entry_read_at, read_loop, read_at, find}
use rakoshare.Files.Find.{find-lt, find-offset, find-nil}
use rakoshare.Files.Flat.{offset_bound, IsLaid, IsBacked, flat, part, padded}
use rakoshare.Files.FlatRead.{flat_read, join, flat_read-past, flat_read-within, flat_read-across}

-- A read of a part that lies inside a file is that part.
entry_read_at-part :
    (d : Disk) (e : FileEntry) (c p : List ℕ) (off : ℕ)
    → d e.name ≡ some c
    → off + length p ≤ length c
    → entry_read_at d e p off
      ≡ record { buffer = part c off (length p); count = length p; error = none }
unfolding entry_read_at
entry_read_at-part d e c p off h fits =
    let size : length (part c off (length p)) ≡ length p =
      omega (arith, length-take (length p) (drop off c), length-drop off c) in
    rw (
      h,
      entry_read_at,
      size,
      ltb_refl,
      drop-eq_of_le {A = ℕ} (length p) p (omega arith),
      append-nil,
    )

read_loop-nil : (d : Disk) (f : FileStore) (off : ℕ) → read_loop d f [] off ≡ flat_read [] 0 0
unfolding read_loop
read_loop-nil d [] off = refl
read_loop-nil d (x ∷ f) off = refl

-- One round of the loop whose file has bytes to give.
module _ (d : Disk) (x : Located) (f : FileStore) (v : ℕ) (q c : List ℕ) (off : ℕ)
    (e : d x.entry.name ≡ some c) (size : length c ≡ x.entry.length) (low : x.offset ≤ off)
    (inside : off - x.offset < x.entry.length) where
  abbrev p : List ℕ
  p = v ∷ q

  abbrev chunk : ℕ
  chunk = min (length p) (x.entry.length - (off - x.offset))

  length-chunk : length (take chunk p) ≡ chunk
  length-chunk = omega (arith, length-take chunk p)

  length-got : length (part c (off - x.offset) chunk) ≡ chunk
  length-got =
      omega
        (arith, size, length-take chunk (drop (off - x.offset) c), length-drop (off - x.offset) c)

  here :
      entry_read_at d x.entry (take chunk p) (off - x.offset)
      ≡ record { buffer = part c (off - x.offset) chunk; count = chunk; error = none }
  here = rw length-chunk at (
      entry_read_at-part d x.entry c (take chunk p) (off - x.offset) e
        (omega (arith, size, length-chunk)))

  keep : take chunk (part c (off - x.offset) chunk ++ drop chunk p) ≡ part c (off - x.offset) chunk
  keep =
      subst
        (λ k.
          take k (part c (off - x.offset) chunk ++ drop chunk p) ≡ part c (off - x.offset) chunk)
        length-got (take-length-append _ _)

  left : drop chunk (part c (off - x.offset) chunk ++ drop chunk p) ≡ drop chunk p
  left =
      subst (λ k. drop k (part c (off - x.offset) chunk ++ drop chunk p) ≡ drop chunk p) length-got
        (drop-length-append (part c (off - x.offset) chunk) (drop chunk p))

  read_loop-cons :
      read_loop d (x ∷ f) p off
      ≡ join (part c (off - x.offset) chunk) (read_loop d f (drop chunk p) (off + chunk))
  unfolding read_loop
  read_loop-cons = rw (
    suc-==-zero (length q),
    ltb-eq-false off x.offset low,
    lt→ltb _ _ inside,
    here,
    here,
    keep,
    left,
    length-got,
  )

-- A file that ends at the offset, or before it, is passed over.
read_loop-skip :
    (d : Disk) (x : Located) (f : FileStore) (p : List ℕ) (off : ℕ)
    → x.offset + x.entry.length ≤ off
    → read_loop d (x ∷ f) p off ≡ read_loop d f p off
read_loop-skip d x f [] off h = read_loop-nil d (x ∷ f) off ∙ sym (read_loop-nil d f off)
read_loop-skip d x f (v ∷ q) off h =
    unfold read_loop in
    rw (
      suc-==-zero (length q),
      ltb-eq-false off x.offset (omega arith),
      ltb-eq-false (off - x.offset) x.entry.length (omega arith),
    )

-- The loop past the last file.
read_loop-end :
    (d : Disk) (p : List ℕ) (off o : ℕ) → read_loop d [] p off ≡ flat_read [] o (length p)
unfolding read_loop
read_loop-end d p off o =
    let e : length p - 0 ≡ length p = omega arith in
    rw (drop-nil {A = ℕ} o, take-nil {A = ℕ} (length p), e)

-- From an offset in the range of the entries on, the loop reads the flat range of bytes.
read_loop-flat :
    (d : Disk) (f : FileStore) (base : ℕ) (p : List ℕ) (off : ℕ)
    → IsLaid base f
    → IsBacked d f
    → base ≤ off
    → read_loop d f p off ≡ flat_read (flat d f) (off - base) (length p)
read_loop-flat d [] base p off laid backed low = read_loop-end d p off (off - base)
read_loop-flat d (x ∷ f) base [] off laid backed low = read_loop-nil d (x ∷ f) off
read_loop-flat d (x ∷ f) base (v ∷ q) off (at, laid) ((c, e, size), backed) low =
    let n = length (v ∷ q) in
    let o = off - x.offset in
    let past = read_loop-flat d f (base + x.entry.length) in
    rw (e, ← at)
      (elim (dec_lt o x.entry.length) [
        | no out ↦
            let to : off - (base + x.entry.length) ≡ o - length c = omega arith in
            read_loop-skip d x f (v ∷ q) off (omega arith)
            ∙ past (v ∷ q) off laid backed (omega arith)
            ∙ rw to (sym (flat_read-past c (flat d f) o n (omega arith)))
        | yes inside ↦
            let step = read_loop-cons d x f v q c off e size (omega arith) inside in
            elim (dec_le n (x.entry.length - o)) [
              | yes fits ↦
                  let whole : min n (x.entry.length - o) ≡ n = omega arith in
                  step
                  ∙ rw (whole, drop-eq_of_le n (v ∷ q) (omega arith), read_loop-nil d f (off + n))
                      (flat_read-within c (flat d f) o n (omega arith))
              | no runs_on ↦
                  let whole : min n (x.entry.length - o) ≡ x.entry.length - o = omega arith in
                  let k = x.entry.length - o in
                  let z : off + k - (base + x.entry.length) ≡ 0 = omega arith in
                  let l : length (drop k (v ∷ q)) ≡ n - (length c - o) =
                    omega (arith, length-drop k (v ∷ q)) in
                  let rest : read_loop d f (drop k (v ∷ q)) (off + k)
                      ≡ flat_read (flat d f) 0 (n - (length c - o)) =
                    rw (z, l) at (past (drop k (v ∷ q)) (off + k) laid backed (omega arith)) in
                  step
                  ∙ rw (whole, rest, take-eq_of_le k (drop o c) (omega (arith, length-drop o c)))
                      (flat_read-across c (flat d f) o n (omega arith) (omega arith))
            ]
      ])

-- An entry that starts at or before the offset ends the search of the loop: the entries before it
-- are passed over.
read_loop-drop :
    (d : Disk) (f : FileStore) (base : ℕ) (p : List ℕ) (off r : ℕ)
    → IsLaid base f
    → ((x : Located) → get_elem? f r ≡ some x → x.offset ≤ off)
    → r < length f
    → read_loop d (drop r f) p off ≡ read_loop d f p off
read_loop-drop d [] base p off r laid h k = absurd (omega arith)
read_loop-drop d (x ∷ f) base p off zero laid h k = refl
read_loop-drop d (x ∷ f) base p off (suc r) (at, laid) h k =
    let (y, found) = get_elem?-eq_some f r (omega arith) in
    read_loop-drop d f (base + x.entry.length) p off r laid h (omega arith)
    ∙ sym (read_loop-skip d x f p off (omega (arith, h y found, offset_bound f _ r laid y found)))

-- `fileStore.ReadAt` over a well-formed store returns the bytes of the flat range from the offset
-- on and fills the rest of the buffer with zeros; the count is that of the bytes of the range, and
-- there is no error, also past the end of the range.
pub read_at-flat :
    (d : Disk) (f : FileStore) (p : List ℕ) (off : ℕ)
    → IsLaid 0 f
    → IsBacked d f
    → read_at d f p off ≡ record {
      buffer = padded (part (flat d f) off (length p)) (length p);
      count = length (part (flat d f) off (length p));
      error = none;
    }
unfolding read_at
read_at-flat d [] p off laid backed =
    let e : find [] off ≡ 0 = omega (arith, find-nil off) in rw e (read_loop-end d p off off)
read_at-flat d (x ∷ f) p off laid backed =
    let e : off - 0 ≡ off = omega arith in
    read_loop-drop d (x ∷ f) 0 p off (find (x ∷ f) off) laid (find-offset (x ∷ f) off laid)
      (find-lt (x ∷ f) off (omega arith))
    ∙ rw e at (read_loop-flat d (x ∷ f) 0 p off laid backed (omega arith))
