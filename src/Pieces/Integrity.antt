-- ===== src/Pieces/Integrity.antt =====
-- The check of a piece returns, and does not see a write to another piece.
use rakoshare.Base.{
  ℕ, ◌+◌, ◌-◌, ◌*◌, ◌/◌, ◌≤◌, ◌<◌, ◌≡◌, ◌≢◌, refl, ap, inl, inr, List, [], ◌∷◌, length, take, drop,
  replicate, length-replicate, length-take, length-drop, arith, ltb, ltb-eq-false, ◌==◌, ==_iff,
  if◌then◌else◌, Bool, true, false, Bool-cases, Option-cases, none, some, Option, Run, ok, panic,
  dec_lt,
}
use native.Mathlib.Nat.{lt-div-mul-add}
use rakoshare.Files.{Disk, FileStore, ReadResult, read_at, write_at}
use rakoshare.Files.Flat.{IsLaid, IsBacked}
use rakoshare.Files.Names.{IsDistinct}
use rakoshare.Files.Disjoint.{AreDisjoint, read_at-write_at_elsewhere}
use rakoshare.Pieces.{sum_size, num_pieces, compute_piece_sum, check_piece, check_equal}

-- The length that `computePieceSum` reads of a piece.
abbrev pub read_size : ℕ → ℕ → ℕ → ℕ
read_size total_length piece_length i =
    if i + 1 == num_pieces total_length piece_length
    then total_length - i * piece_length
    else piece_length

read_size-le :
    (total_length piece_length i : ℕ)
    → 0 < piece_length
    → read_size total_length piece_length i ≤ piece_length
unfolding num_pieces
read_size-le total_length piece_length i h =
    elim (Bool-cases (i + 1 == num_pieces total_length piece_length)) [
      | inr e ↦ rw e (omega arith)
      | inl e ↦
          let n : i + 1 ≡ (total_length + piece_length - 1) / piece_length = (==_iff _ _).0 e in
          let below : total_length + piece_length - 1 < (i + 1) * piece_length + piece_length =
            rw (← n) at (lt-div-mul-add {a = total_length + piece_length - 1} h) in
          let m : (i + 1) * piece_length ≡ i * piece_length + piece_length = grind arith in
          rw e (omega (arith, below, m))
    ]

pub check_equal-ok :
    (ref current : List ℕ)
    → length current ≤ length ref
    → (b : Bool) × (check_equal ref current ≡ ok b)
unfolding check_equal
check_equal-ok ref [] h = (true, refl)
check_equal-ok [] (c ∷ current) h = absurd (omega arith)
check_equal-ok (r ∷ ref) (c ∷ current) h = elim (Bool-cases (r == c)) [
  | inl e ↦ let (b, f) = check_equal-ok ref current (omega arith) in (b, rw e f)
  | inr e ↦ (false, rw e)
]

module _ (sha1 : List ℕ → List ℕ) (d : Disk) (fs : FileStore) (total_length piece_length : ℕ) where
  -- `checkPiece` does not panic on a piece that the sums have an entry for.
  pub check_piece-ok :
      (ref : List ℕ) (i : ℕ)
      → ((piece : List ℕ) → length (sha1 piece) ≡ sum_size)
      → i * sum_size + sum_size ≤ length ref
      → (b : Bool) × (check_piece sha1 d fs total_length piece_length ref i ≡ ok b)
  unfolding check_piece compute_piece_sum
  check_piece-ok ref i size h =
      let result =
        read_at d fs (replicate (read_size total_length piece_length i) 0) (i * piece_length) in
      let enough : ltb (length ref) (i * sum_size + sum_size) ≡ false = ltb-eq-false _ _ h in
      let short = length-take sum_size (drop (i * sum_size) ref) in
      let rest = length-drop (i * sum_size) ref in
      elim (Option-cases result.error) [
        | inr (e, f) ↦ (false, rw (check_piece, compute_piece_sum, f))
        | inl f ↦
            let (b, g) =
              check_equal-ok (take sum_size (drop (i * sum_size) ref)) (sha1 result.buffer)
                (omega (arith, size result.buffer)) in
            (b, rw (check_piece, compute_piece_sum, f, enough, g))
      ]

  -- The check depends on the read of the piece alone.
  check_piece_of_read :
      (d' : Disk) (ref : List ℕ) (i : ℕ)
      → read_at d' fs (replicate (read_size total_length piece_length i) 0) (i * piece_length)
        ≡ read_at d fs (replicate (read_size total_length piece_length i) 0) (i * piece_length)
      → check_piece sha1 d' fs total_length piece_length ref i
        ≡ check_piece sha1 d fs total_length piece_length ref i
  unfolding check_piece
  check_piece_of_read d' ref i e =
      let sums : compute_piece_sum sha1 d' fs total_length piece_length i
          ≡ compute_piece_sum sha1 d fs total_length piece_length i =
        unfold compute_piece_sum in
        ap
          (λ (r : ReadResult). elim r.error as (λ x. Option (List ℕ)) [
            | some e ↦ none
            | none ↦ some (sha1 r.buffer)
          ])
          e in
      ap
        (λ (o : Option (List ℕ)). elim o as (λ x. Run Bool) [
          | none ↦ ok false
          | some sum ↦
              if ltb (length ref) (i * sum_size + sum_size)
              then panic
              else check_equal (take sum_size (drop (i * sum_size) ref)) sum
        ])
        sums

  -- A write that stays within the place of another piece changes nothing of a piece's check.
  pub check_piece-write_at :
      (ref p : List ℕ) (i j begin : ℕ)
      → 0 < piece_length
      → IsLaid 0 fs
      → IsBacked d fs
      → IsDistinct fs
      → begin + length p ≤ piece_length
      → i ≢ j
      → check_piece sha1
          (write_at d fs p (j * piece_length + begin)).disk
          fs
          total_length
          piece_length
          ref
          i
        ≡ check_piece sha1 d fs total_length piece_length ref i
  check_piece-write_at ref p i j begin positive laid backed distinct fits ne =
      let n = length-replicate {A = ℕ} (read_size total_length piece_length i) 0 in
      let small = read_size-le total_length piece_length i positive in
      let apart : AreDisjoint (j * piece_length + begin) (length p) (i * piece_length)
          (length (replicate {A = ℕ} (read_size total_length piece_length i) 0)) =
        elim (dec_lt i j) [ yes a ↦ inr (rw n (grind arith)) | no b ↦ inl (grind arith) ] in
      check_piece_of_read (write_at d fs p (j * piece_length + begin)).disk ref i (
        read_at-write_at_elsewhere d fs p (replicate (read_size total_length piece_length i) 0)
          (j * piece_length + begin) (i * piece_length) laid backed distinct apart)
