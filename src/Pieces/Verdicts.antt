-- ===== src/Pieces/Verdicts.antt =====
-- `checkPieces` finds of every piece what `checkPiece` finds, and keeps the bytes of the store.
use rakoshare.Base.{
  ℕ, zero, suc, ◌+◌, ◌*◌, ◌≤◌, ◌<◌, ◌≡◌, refl, sym, ap, ◌∙◌, inl, inr, List, length, arith, ◌==◌,
  ==_iff, true, false, Bool-cases, some, ok, pos,
}
use rakoshare.Bitset.{Bitset, new, set_bit, test}
use rakoshare.Bitset.Valid.{IsValid}
use rakoshare.Bitset.Update.{new-IsValid, set_bit_lem}
use rakoshare.Files.{Disk, FileStore}
use rakoshare.Files.Flat.{IsLaid, IsBacked, flat}
use rakoshare.Store.{set_bad}
use rakoshare.Store.Marked.{IsSpare}
use rakoshare.Store.Bad.{set_bad-IsMarked}
use rakoshare.Pieces.{
  Checked, sum_size, num_pieces, compute_sums, check_equal, check_from, check_pieces,
}
use rakoshare.Pieces.Integrity.{check_equal-ok}
use rakoshare.Pieces.Sums.{AllBelow, has_index}
use rakoshare.Pieces.Slices.{sum_of, length-sum_of, length-sums}

module _ (sha1 : List ℕ → List ℕ) (hash : (piece : List ℕ) → length (sha1 piece) ≡ sum_size)
    (d : Disk) (fs : FileStore) (total piece_length : ℕ) (lay : IsLaid 0 fs) (back : IsBacked d fs)
    (arriving : List ℕ) (below : AllBelow (num_pieces total piece_length) arriving)
    (every : (i : ℕ) → i < num_pieces total piece_length → has_index i arriving ≡ true) where
  abbrev sums : List ℕ
  sums = compute_sums sha1 d fs total piece_length arriving

  -- What the loop of `checkPieces` leaves after the pieces before `i`.
  pub record AreChecked (ref : List ℕ) (i : ℕ) (c : Checked) : Type 0 where
    pub bits : IsValid c.good_bits
    pub size : c.good_bits.n ≡ num_pieces total piece_length
    pub count : c.good + c.bad ≡ i
    pub laid : IsLaid 0 c.file_store
    pub backed : IsBacked c.disk c.file_store
    pub spare : IsSpare c.file_store
    pub bytes : flat c.disk c.file_store ≡ flat d fs
    pub done :
        (j : ℕ) → j < i → check_equal (sum_of ref j) (sum_of sums j) ≡ ok (test c.good_bits j)
    pub todo : (j : ℕ) → i ≤ j → test c.good_bits j ≡ false

  -- A piece whose sum is the one of the metainfo enters the set.
  good-AreChecked :
      (ref : List ℕ) (i : ℕ) (c : Checked)
      → i < num_pieces total piece_length
      → AreChecked ref i c
      → check_equal (sum_of ref i) (sum_of sums i) ≡ ok true
      → (bits : Bitset) × (set_bit c.good_bits (pos i) ≡ ok bits)
        × AreChecked ref (suc i) (record c { good = c.good + 1; good_bits = bits })
  good-AreChecked ref i c lt h f =
      let (bits, g, valid, size, members) =
        set_bit_lem c.good_bits h.bits i (omega (arith, h.size)) in
      (
        bits,
        g,
        record {
          bits = valid;
          size = size ∙ h.size;
          count = omega (arith, h.count);
          laid = h.laid;
          backed = h.backed;
          spare = h.spare;
          bytes = h.bytes;
          done = λ j before. elim (Bool-cases (i == j)) [
            | inl e ↦ let at : i ≡ j = (==_iff i j).0 e in rw (members j, e, ← at) f
            | inr e ↦ rw (members j, e) (h.done j (ground arith))
          ];
          todo = λ j after.
              let other : (i == j) ≡ false = ground arith in
              rw (members j, other) (h.todo j (omega arith));
        },
      )

  -- Any other piece stays out, and the files from it on are marked.
  bad-AreChecked :
      (ref : List ℕ) (i : ℕ) (c : Checked)
      → AreChecked ref i c
      → check_equal (sum_of ref i) (sum_of sums i) ≡ ok false
      → AreChecked ref (suc i) (record c {
        bad = c.bad + 1;
        disk = (set_bad c.disk c.file_store (i * piece_length)).0;
        file_store = (set_bad c.disk c.file_store (i * piece_length)).1;
      })
  bad-AreChecked ref i c h f =
      let m = set_bad-IsMarked c.disk c.file_store (i * piece_length) h.laid h.backed h.spare in
      record {
        bits = h.bits;
        size = h.size;
        count = omega (arith, h.count);
        laid = m.laid;
        backed = m.backed;
        spare = m.spare;
        bytes = m.bytes ∙ h.bytes;
        done = λ j before. elim (Bool-cases (i == j)) [
          | inl e ↦
              let at : i ≡ j = (==_iff i j).0 e in
              rw (← at) (f ∙ ap ok (sym (h.todo i (omega arith))))
          | inr e ↦ h.done j (ground arith)
        ];
        todo = λ j after. h.todo j (omega arith);
      }

  check_from_lem :
      (rounds i : ℕ) (ref : List ℕ) (c : Checked)
      → length ref ≡ num_pieces total piece_length * sum_size
      → i + rounds ≡ num_pieces total piece_length
      → AreChecked ref i c
      → (c' : Checked) × (check_from rounds i piece_length ref sums c ≡ ok c')
        × AreChecked ref (num_pieces total piece_length) c'
  unfolding check_from
  check_from_lem zero i ref c e n h =
      let all : i ≡ num_pieces total piece_length = omega (arith, n) in (c, refl, rw all at h)
  check_from_lem (suc rounds) i ref c e n h =
      let lt : i < num_pieces total piece_length = omega (arith, n) in
      let size = length-sum_of ref (num_pieces total piece_length) i e lt in
      let size' =
        length-sum_of sums (num_pieces total piece_length) i
          (length-sums sha1 hash d fs total piece_length lay back arriving below every) lt in
      let after : suc i + rounds ≡ num_pieces total piece_length = omega (arith, n) in
      let up : i + 1 ≡ suc i = omega arith in
      let (verdict, found) =
        check_equal-ok (sum_of ref i) (sum_of sums i) (omega (arith, size, size')) in
      elim (Bool-cases verdict) [
        | inl b ↦
            let f : check_equal (sum_of ref i) (sum_of sums i) ≡ ok true = rw b at found in
            let (bits, g, next) = good-AreChecked ref i c lt h f in
            let (c', run, checked) =
              check_from_lem rounds (suc i) ref (record c { good = c.good + 1; good_bits = bits }) e
                after next in
            (c', rw (check_from, f, g, up) run, checked)
        | inr b ↦
            let f : check_equal (sum_of ref i) (sum_of sums i) ≡ ok false = rw b at found in
            let marked = set_bad c.disk c.file_store (i * piece_length) in
            let (c', run, checked) =
              check_from_lem rounds (suc i) ref
                (record c { bad = c.bad + 1; disk = marked.0; file_store = marked.1 }) e after
                (bad-AreChecked ref i c h f) in
            (c', rw (check_from, f, up) run, checked)
      ]

  -- Where there is a sum for each piece, `checkPieces` returns: the set has the pieces that
  -- `checkPiece` accepts, on the store that it leaves.
  pub check_pieces_lem :
      (ref : List ℕ)
      → length ref ≡ num_pieces total piece_length * sum_size
      → IsSpare fs
      → (c : Checked) × (check_pieces sha1 d fs total piece_length ref arriving ≡ ok (some c))
        × AreChecked ref (num_pieces total piece_length) c
  unfolding check_pieces
  check_pieces_lem ref e spare =
      let n = num_pieces total piece_length in
      let (valid, empty) = new-IsValid n in
      let start : Checked = record {
        good = 0;
        bad = 0;
        good_bits = new n;
        disk = d;
        file_store = fs;
      } in
      let (c, run, checked) = check_from_lem n 0 ref start e (omega arith) (record {
        bits = valid;
        size = unfold new in refl;
        count = omega arith;
        laid = lay;
        backed = back;
        spare = spare;
        bytes = refl;
        done = λ j before. absurd (omega arith);
        todo = λ j after. empty j;
      }) in
      let right : (length ref == n * sum_size) ≡ true = ground arith in
      (c, rw (check_pieces, right, run), checked)
