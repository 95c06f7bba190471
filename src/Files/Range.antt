-- ===== src/Files/Range.antt =====
-- `fileStore.WriteAt` from end to end, and a read after a write.
use rakoshare.Base.{
  ℕ, zero, suc, ◌+◌, ◌-◌, ◌≤◌, ◌<◌, ◌≡◌, ◌↔◌, refl, sym, ap, subst, ◌∙◌, none, some, List, [], ◌∷◌,
  ◌++◌, length, take, drop, All, get_elem?, get_elem?-eq_some, arith, length-take, length-drop,
  take-length-append, drop-length-append, drop-eq_of_le, take-eq_of_le, append-nil,
}
use rakoshare.Files.{
  FileName, Disk, Located, FileStore, WriteResult, write_tail, write_loop, write_at, read_at, find,
}
use rakoshare.Files.Find.{find-lt, find-offset, find-nil}
use rakoshare.Files.Flat.{IsLaid, IsBacked, flat, offset_bound, length-flat, total, part}
use rakoshare.Files.Overlay.{overlay}
use rakoshare.Files.Read.{read_at-flat}
use rakoshare.Files.Names.{Lacks, IsDistinct}
use rakoshare.Files.Written.{IsWritten, write_loop-skip}
use rakoshare.Files.Write.{write_loop-IsWritten}

-- The entries before one that starts at or before the offset are passed over.
write_loop-drop :
    (d : Disk) (f : FileStore) (base : ℕ) (p : List ℕ) (off n r : ℕ)
    → IsLaid base f
    → ((x : Located) → get_elem? f r ≡ some x → x.offset ≤ off)
    → r < length f
    → write_loop d (drop r f) p off n ≡ write_loop d f p off n
write_loop-drop d [] base p off n r laid h k = absurd (omega arith)
write_loop-drop d (x ∷ f) base p off n zero laid h k = refl
write_loop-drop d (x ∷ f) base p off n (suc r) (at, laid) h k =
    let (y, found) = get_elem?-eq_some f r (omega arith) in
    write_loop-drop d f (base + x.entry.length) p off n r laid h (omega arith)
    ∙ sym
        (write_loop-skip d x f p off n (omega (arith, h y found, offset_bound f _ r laid y found)))

write_at-IsWritten :
    (d : Disk) (f : FileStore) (p : List ℕ) (off : ℕ)
    → IsLaid 0 f
    → IsBacked d f
    → IsDistinct f
    → IsWritten d f p off 0 (write_at d f p off)
unfolding write_at
write_at-IsWritten d [] p off laid b dis =
    let e : find [] off ≡ 0 = omega (arith, find-nil off) in
    let z : off - 0 ≡ off = omega arith in
    rw (e, z) at (write_loop-IsWritten d [] 0 p off 0 laid b dis (omega arith))
write_at-IsWritten d (x ∷ f) p off laid b dis =
    let z : off - 0 ≡ off = omega arith in
    rw
      (write_loop-drop d (x ∷ f) 0 p off 0 (find (x ∷ f) off) laid (find-offset (x ∷ f) off laid)
        (find-lt (x ∷ f) off (omega arith)))
      (rw z at (write_loop-IsWritten d (x ∷ f) 0 p off 0 laid b dis (omega arith)))

abbrev pub IsZeros : List ℕ → Type 0
IsZeros = All (λ (v : ℕ). v ≡ 0)

write_tail-zeros :
    (d : Disk) (p : List ℕ) (n : ℕ)
    → IsZeros p
    → write_tail d p n ≡ record { disk = d; count = n + length p; error = none }
unfolding write_tail
write_tail-zeros d [] n h = let e : n + 0 ≡ n = omega arith in rw e
write_tail-zeros d (zero ∷ p) n (_, h) =
    let e : n + 1 + length p ≡ n + suc (length p) = omega arith in
    rw e at (write_tail-zeros d p (n + 1) h)
write_tail-zeros d (suc v ∷ p) n (e, h) = absurd (omega arith)

write_tail-error : (d : Disk) (p : List ℕ) (n : ℕ) → (write_tail d p n).error ≡ none → IsZeros p
unfolding write_tail
write_tail-error d [] n h = tt
write_tail-error d (zero ∷ p) n h = (refl, write_tail-error d p (n + 1) h)
write_tail-error d (suc v ∷ p) n h = cc

-- What lies at the place of a write is what was written.
part-overlay :
    (bytes p : List ℕ) (off : ℕ)
    → off + length p ≤ length bytes
    → part (overlay bytes p off) off (length p) ≡ p
part-overlay bytes p off h =
    let size : length (take off bytes) ≡ off = omega (arith, length-take off bytes) in
    let rest = take (length bytes - off) p ++ drop (off + length p) bytes in
    let cut : drop off (take off bytes ++ rest) ≡ rest =
      subst (λ k. drop k (take off bytes ++ rest) ≡ rest) size
        (drop-length-append (take off bytes) rest) in
    rw (cut, take-eq_of_le (length bytes - off) p (omega arith))
      (take-length-append p (drop (off + length p) bytes))

module _ (d : Disk) (f : FileStore) (p : List ℕ) (off : ℕ) (laid : IsLaid 0 f)
    (backed : IsBacked d f) (distinct : IsDistinct f) where
  abbrev done : WriteResult
  done = write_at d f p off

  -- The part of `p` that lies past the end of the range.
  abbrev excess : List ℕ
  excess = drop (length (flat d f) - off) p

  -- `fileStore.WriteAt` over a well-formed store writes `p` over the flat range of bytes as far as
  -- the range goes, and changes no file that is not of the store. It reports no error exactly when
  -- what lies past the range is all zeros, and then counts every byte of `p`.
  pub write_at-flat :
      IsBacked done.disk f
      × (flat done.disk f ≡ overlay (flat d f) p off)
      × ((name : FileName) → Lacks name f → done.disk name ≡ d name)
      × ((done.error ≡ none) ↔ IsZeros excess)
      × (IsZeros excess → done.count ≡ length p)
  write_at-flat =
      let w = write_at-IsWritten d f p off laid backed distinct in
      let m = 0 + length (take (length (flat d f) - off) p) in
      (
        w.backed,
        w.bytes,
        w.others,
        (
          λ h.
              write_tail-error done.disk excess m
                (ap (λ (r : WriteResult). r.error) (sym w.outcome) ∙ h),
          λ z.
              ap (λ (r : WriteResult). r.error) (w.outcome ∙ write_tail-zeros done.disk excess m z),
        ),
        λ z.
            ap (λ (r : WriteResult). r.count) (w.outcome ∙ write_tail-zeros done.disk excess m z)
            ∙ omega (
              arith,
              length-take (length (flat d f) - off) p,
              length-drop (length (flat d f) - off) p,
            ),
      )

  -- What was written within the range is read back: the write reports no error, and a read of as
  -- many bytes at the same offset returns them.
  read_at-write_at :
      (q : List ℕ)
      → length q ≡ length p
      → off + length p ≤ total f
      → (done.error ≡ none)
        × (read_at done.disk f q off ≡ record { buffer = p; count = length p; error = none })
  read_at-write_at q same fits =
      let (b, bytes, _, clean, _) = write_at-flat in
      let size = length-flat d f backed in
      let none_left : excess ≡ [] = drop-eq_of_le _ p (omega (arith, size)) in
      let back : part (flat done.disk f) off (length q) ≡ p =
        rw (bytes, same) (part-overlay (flat d f) p off (omega (arith, size))) in
      let z : length q - length p ≡ 0 = omega arith in
      (
        clean.1 (rw none_left tt),
        read_at-flat done.disk f q off laid b ∙ rw (back, z) (rw (append-nil p)),
      )
