-- ===== src/Files/FlatRead.antt =====
-- What a read of a flat range of bytes returns, and the three places where it may lie in an append.
use rakoshare.Base.{
  ℕ, ◌+◌, ◌-◌, ◌≤◌, ◌≡◌, ap, ◌∙◌, none, List, [], ◌++◌, length, take, drop, replicate, arith,
  length-append, length-take, length-drop, take-append, drop-append, take-eq_of_le, drop-eq_of_le,
  append-nil, append_assoc,
}
use rakoshare.Files.{ReadResult}
use rakoshare.Files.Flat.{part, padded}

-- What a read of `n` bytes of `bytes` at `off` leaves.
abbrev pub flat_read : List ℕ → ℕ → ℕ → ReadResult
flat_read bytes off n = record {
  buffer = padded (part bytes off n) n;
  count = length (part bytes off n);
  error = none;
}

-- A read that starts in `xs` and has more bytes to go than `xs` has.
abbrev pub join : List ℕ → ReadResult → ReadResult
join xs r = record { buffer = xs ++ r.buffer; count = length xs + r.count; error = r.error }

-- The three places where a read of an append may lie.
module _ (xs ys : List ℕ) (o n : ℕ) where
  pub flat_read-past : length xs ≤ o → flat_read (xs ++ ys) o n ≡ flat_read ys (o - length xs) n
  flat_read-past h =
      let e : drop o (xs ++ ys) ≡ drop (o - length xs) ys =
        drop-append o xs ys
        ∙ ap (λ (t : List ℕ). t ++ drop (o - length xs) ys) (drop-eq_of_le o xs h) in
      ap
        (λ (t : List ℕ). record {
          buffer = padded (take n t) n;
          count = length (take n t);
          error = none;
        })
        e

  part-within : o + n ≤ length xs → part (xs ++ ys) o n ≡ part xs o n
  part-within h =
      let z : n - length (drop o xs) ≡ 0 = omega (arith, length-drop o xs) in
      rw (drop-append o xs ys, take-append n (drop o xs) (drop (o - length xs) ys), z)
        (append-nil (take n (drop o xs)))

  pub flat_read-within :
      o + n ≤ length xs → join (part xs o n) (flat_read [] 0 0) ≡ flat_read (xs ++ ys) o n
  flat_read-within h =
      let size : length (part xs o n) ≡ n =
        omega (arith, length-take n (drop o xs), length-drop o xs) in
      let full : n - n ≡ 0 = omega arith in
      let none_left : n + 0 ≡ n = omega arith in rw (part-within h, size, full, none_left)

  part-across :
      o ≤ length xs
      → length xs ≤ o + n
      → part (xs ++ ys) o n ≡ drop o xs ++ part ys 0 (n - (length xs - o))
  part-across h k =
      let z : o - length xs ≡ 0 = omega arith in
      rw (
        drop-append o xs ys,
        take-append n (drop o xs) (drop (o - length xs) ys),
        take-eq_of_le n (drop o xs) (omega (arith, length-drop o xs)),
        length-drop o xs,
        z,
      )

  pub flat_read-across :
      o ≤ length xs
      → length xs ≤ o + n
      → join (drop o xs) (flat_read ys 0 (n - (length xs - o))) ≡ flat_read (xs ++ ys) o n
  flat_read-across h k =
      let rest = part ys 0 (n - (length xs - o)) in
      let size : length (drop o xs ++ rest) ≡ length (drop o xs) + length rest =
        length-append (drop o xs) rest in
      let gap : n - length (drop o xs ++ rest) ≡ n - (length xs - o) - length rest =
        omega (arith, size, length-drop o xs) in
      rw (
        part-across h k,
        gap,
        size,
        append_assoc (drop o xs) rest (replicate (n - (length xs - o) - length rest) 0),
      )
