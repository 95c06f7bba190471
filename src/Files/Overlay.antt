-- ===== src/Files/Overlay.antt =====
-- Writing over a flat range of bytes.
use rakoshare.Base.{
  ℕ, ◌+◌, ◌-◌, ◌≤◌, ◌≡◌, List, [], ◌++◌, length, take, drop, arith, length-append, length-take,
  length-drop, take-append, drop-append, take-eq_of_le, drop-eq_of_le, append-nil, append_assoc,
  take-nil, drop-nil, take-add, take-append-drop,
}
use rakoshare.Files.{write_content}

-- The bytes `p` at `off`, as far as the range goes; past its end nothing is written.
abbrev pub overlay : List ℕ → List ℕ → ℕ → List ℕ
overlay bytes p off = take off bytes ++ (take (length bytes - off) p ++ drop (off + length p) bytes)

-- A write that lies inside a content.
abbrev pub splice : List ℕ → List ℕ → ℕ → List ℕ
splice bytes p off = take off bytes ++ (p ++ drop (off + length p) bytes)

pub write_content-splice :
    (c p : List ℕ) (off : ℕ) → off ≤ length c → write_content c p off ≡ splice c p off
unfolding write_content
write_content-splice c p off h = let e : off - length c ≡ 0 = omega arith in rw (e, append-nil c)

pub length-splice :
    (c p : List ℕ) (off : ℕ) → off + length p ≤ length c → length (splice c p off) ≡ length c
length-splice c p off h = omega (
  arith,
  length-append (take off c) (p ++ drop (off + length p) c),
  length-append p (drop (off + length p) c),
  length-take off c,
  length-drop (off + length p) c,
)

pub overlay-nil : (bytes : List ℕ) (off : ℕ) → overlay bytes [] off ≡ bytes
overlay-nil bytes off =
    let e : off + 0 ≡ off = omega arith in
    rw (take-nil {A = ℕ} (length bytes - off), e) (take-append-drop off bytes)

pub overlay-empty : (p : List ℕ) (off : ℕ) → overlay [] p off ≡ []
overlay-empty p off =
    let e : 0 - off ≡ 0 = omega arith in
    rw (take-nil {A = ℕ} off, e, drop-nil {A = ℕ} (off + length p))

module _ (xs ys p : List ℕ) (off : ℕ) where
  pub overlay-past :
      length xs ≤ off → overlay (xs ++ ys) p off ≡ xs ++ overlay ys p (off - length xs)
  overlay-past h =
      let e : length xs + length ys - off ≡ length ys - (off - length xs) = omega arith in
      let f : off + length p - length xs ≡ off - length xs + length p = omega arith in
      rw
        (
          take-append off xs ys,
          take-eq_of_le off xs h,
          length-append xs ys,
          e,
          drop-append (off + length p) xs ys,
          drop-eq_of_le (off + length p) xs (omega arith),
          f,
        )
        (append_assoc xs (take (off - length xs) ys) _)

  pub overlay-within : off + length p ≤ length xs → overlay (xs ++ ys) p off ≡ splice xs p off ++ ys
  overlay-within h =
      let e : off - length xs ≡ 0 = omega arith in
      let f : off + length p - length xs ≡ 0 = omega arith in
      rw
        (
          take-append off xs ys,
          e,
          append-nil (take off xs),
          length-append xs ys,
          take-eq_of_le (length xs + length ys - off) p (omega arith),
          drop-append (off + length p) xs ys,
          f,
        )
        (simp append_assoc)

  pub overlay-across :
      off ≤ length xs
      → length xs ≤ off + length p
      → overlay (xs ++ ys) p off
        ≡ splice xs (take (length xs - off) p) off ++ overlay ys (drop (length xs - off) p) 0
  overlay-across h k =
      let m = length xs - off in
      let z : off - length xs ≡ 0 = omega arith in
      let e : length xs + length ys - off ≡ m + length ys = omega arith in
      let e' : length ys - 0 ≡ length ys = omega arith in
      let f : 0 + length (drop m p) ≡ off + length p - length xs = omega (arith, length-drop m p) in
      rw
        (
          take-append off xs ys,
          z,
          append-nil (take off xs),
          length-append xs ys,
          e,
          e',
          f,
          take-add m (length ys) p,
          drop-append (off + length p) xs ys,
          drop-eq_of_le (off + length p) xs (omega arith),
          drop-eq_of_le (off + length (take m p)) xs (omega (arith, length-take m p)),
        )
        (simp (append_assoc, append-nil))
