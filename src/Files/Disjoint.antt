-- ===== src/Files/Disjoint.antt =====
-- A write changes nothing of what is read elsewhere.
use rakoshare.Base.{
  ℕ, ◌+◌, ◌-◌, ◌≤◌, ◌<◌, ◌≡◌, sym, ◌∙◌, ◌⊎◌, inl, inr, List, ◌++◌, length, take, drop, get_or,
  get_or-append, get_or-take, get_or-drop, get_or_ext, length-append, length-take, length-drop,
  arith,
}
use rakoshare.Files.{Disk, FileStore, read_at, write_at}
use rakoshare.Files.Flat.{IsLaid, IsBacked, flat, part}
use rakoshare.Files.Overlay.{overlay}
use rakoshare.Files.Names.{IsDistinct}
use rakoshare.Files.Read.{read_at-flat}
use rakoshare.Files.Range.{write_at-flat}

-- Two ranges, by their starts and lengths, that have no byte in common.
abbrev pub AreDisjoint : ℕ → ℕ → ℕ → ℕ → Type 0
AreDisjoint off m o n = (off + m ≤ o) ⊎ (o + n ≤ off)

module _ (bytes p : List ℕ) (off : ℕ) where
  length-overlay : length (overlay bytes p off) ≡ length bytes
  length-overlay = omega (
    arith,
    length-append (take off bytes) (take (length bytes - off) p ++ drop (off + length p) bytes),
    length-append (take (length bytes - off) p) (drop (off + length p) bytes),
    length-take off bytes,
    length-take (length bytes - off) p,
    length-drop (off + length p) bytes,
  )

  get_or-overlay_outside :
      (k : ℕ)
      → (off + length p ≤ k) ⊎ (k < off)
      → k < length bytes
      → get_or (overlay bytes p off) k 0 ≡ get_or bytes k 0
  get_or-overlay_outside k h below =
      let first = length-take off bytes in
      let second = length-take (length bytes - off) p in
      let outer =
        get_or-append (take off bytes) (take (length bytes - off) p ++ drop (off + length p) bytes)
          k in
      let inner =
        get_or-append (take (length bytes - off) p) (drop (off + length p) bytes) (k - off) in
      let past = get_or-drop (off + length p) (k - off - length p) bytes in
      elim h [
        | inr a ↦ ground (arith, outer, first, get_or-take off k bytes a)
        | inl b ↦
            let at : off + length p + (k - off - length p) ≡ k = omega arith in
            let m : length (take (length bytes - off) p) ≡ length p = omega arith in
            let f : length (take off bytes) ≡ off = omega arith in
            ground (arith, outer, f, inner, m, rw at at past)
      ]

part_ext :
    (bytes other : List ℕ) (o n : ℕ)
    → length bytes ≡ length other
    → ((k : ℕ) → o ≤ k → k < o + n → k < length bytes → get_or bytes k 0 ≡ get_or other k 0)
    → part bytes o n ≡ part other o n
part_ext bytes other o n e h =
    let s = length-take n (drop o bytes) in
    let s' = length-take n (drop o other) in
    let t = length-drop o bytes in
    let t' = length-drop o other in
    get_or_ext 0 (part bytes o n) (part other o n) (omega arith) (λ i lt.
      get_or-take n i (drop o bytes) (omega arith)
      ∙ (get_or-drop o i bytes
          ∙ (h (o + i) (omega arith) (omega arith) (omega arith)
              ∙ (sym (get_or-drop o i other)
                  ∙ sym (get_or-take n i (drop o other) (omega arith))))))

-- Over a well-formed store a read returns after a write what it returned before, where the two
-- ranges have no byte in common.
pub read_at-write_at_elsewhere :
    (d : Disk) (f : FileStore) (p q : List ℕ) (off o : ℕ)
    → IsLaid 0 f
    → IsBacked d f
    → IsDistinct f
    → AreDisjoint off (length p) o (length q)
    → read_at (write_at d f p off).disk f q o ≡ read_at d f q o
read_at-write_at_elsewhere d f p q off o laid backed distinct apart =
    let (backed', bytes, _, _, _) = write_at-flat d f p off laid backed distinct in
    let same : part (flat (write_at d f p off).disk f) o (length q) ≡ part (flat d f) o (length q) =
      rw bytes (
        part_ext (overlay (flat d f) p off) (flat d f) o (length q)
          (length-overlay (flat d f) p off)
          (λ k a b c.
            get_or-overlay_outside (flat d f) p off k (outside k a b)
              (omega (arith, length-overlay (flat d f) p off)))) in
    read_at-flat (write_at d f p off).disk f q o laid backed'
    ∙ (rw same (sym (read_at-flat d f q o laid backed)))
  where
    outside : (k : ℕ) → o ≤ k → k < o + length q → (off + length p ≤ k) ⊎ (k < off)
    outside k a b = elim apart [ inl h ↦ inl (omega arith) | inr h ↦ inr (omega arith) ]
